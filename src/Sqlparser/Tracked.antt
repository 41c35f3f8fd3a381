-- ===== src/Sqlparser/Tracked.antt =====
-- sqlparser/tracked_buffer.go: the buffer that a query is written to, with the places of its arguments.
pub mod Writes
use cm.Common.{ℕ, ◌+◌, List, [], ◌∷◌, ◌++◌, length, Bool, not, ltb}
use cm.Sqlparser.Format.{Write, text, arg}

pub record BindLocation : Type 0 where
  pub offset : ℕ
  pub len : ℕ

pub record TrackedBuffer : Type 0 where
  pub buffer : List ℕ
  pub bind_locations : List BindLocation

abbrev pub new_tracked_buffer : TrackedBuffer
new_tracked_buffer = record { buffer = []; bind_locations = [] }

abbrev pub write_string : List ℕ → TrackedBuffer → TrackedBuffer
write_string s b = record b { buffer = b.buffer ++ s }

pub write_arg : List ℕ → TrackedBuffer → TrackedBuffer
write_arg s b = write_string s (record b {
  bind_locations = b.bind_locations ++ record { offset = length b.buffer; len = length s } ∷ [];
})

-- The writes of a `Format`, one after the other.
unfoldable pub run : List Write → TrackedBuffer → TrackedBuffer
run [] b = b
run (text s ∷ ws) b = run ws (write_string s b)
run (arg s ∷ ws) b = run ws (write_arg s b)

pub record ParsedQuery : Type 0 where
  pub query : List ℕ
  pub bind_locations : List BindLocation

abbrev pub parsed_query : TrackedBuffer → ParsedQuery
parsed_query b = record { query = b.buffer; bind_locations = b.bind_locations }

abbrev pub has_bind_vars : TrackedBuffer → Bool
has_bind_vars b = ltb 0 (length b.bind_locations)

-- The query of a `Format`.
abbrev pub query_of : List Write → ParsedQuery
query_of ws = parsed_query (run ws new_tracked_buffer)
