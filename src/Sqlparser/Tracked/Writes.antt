-- ===== src/Sqlparser/Tracked/Writes.antt =====
-- sqlparser/tracked_buffer.go: what a sequence of writes leaves in the buffer.
use cm.Common.{ℕ, ◌+◌, List, [], ◌∷◌, ◌++◌, length, ◌≡◌, refl, length-append}
use mathlib.Core.List.{append-nil, append_assoc}
use cm.Sqlparser.Format.{Write, text, arg}
use cm.Sqlparser.Tracked.{BindLocation, TrackedBuffer, run, write_arg, write_string}

-- The text of the writes.
unfoldable pub flat : List Write → List ℕ
flat [] = []
flat (text s ∷ ws) = s ++ flat ws
flat (arg s ∷ ws) = s ++ flat ws

-- The places of the arguments behind `n` bytes.
unfoldable pub locations : ℕ → List Write → List BindLocation
locations n [] = []
locations n (text s ∷ ws) = locations (n + length s) ws
locations n (arg s ∷ ws) = record { offset = n; len = length s } ∷ locations (n + length s) ws

pub run-flat :
    (ws : List Write) (b : TrackedBuffer)
    → run ws b ≡ record {
      buffer = b.buffer ++ flat ws;
      bind_locations = b.bind_locations ++ locations (length b.buffer) ws;
    }
unfolding run flat locations write_arg
run-flat [] b = rw (append-nil b.buffer, append-nil b.bind_locations) refl
run-flat (text s ∷ ws) b =
    rw (run-flat ws (write_string s b), length-append b.buffer s, append_assoc b.buffer s (flat ws))
      refl
run-flat (arg s ∷ ws) b =
    let l : BindLocation = record { offset = length b.buffer; len = length s } in
    rw
      (
        run-flat ws (write_arg s b),
        length-append b.buffer s,
        append_assoc b.buffer s (flat ws),
        append_assoc b.bind_locations (l ∷ []) (locations (length b.buffer + length s) ws),
      )
      refl
