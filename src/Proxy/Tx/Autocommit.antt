-- ===== src/Proxy/Tx/Autocommit.antt =====
-- proxy/conn_set.go and conn_tx.go: what becomes of `SET autocommit`.
use cm.Common.{ℕ, List, ◌∷◌, Bool, true, false, ◌≡◌, arith}
use cm.Sqlparser.Ast.{num_val}
use cm.Proxy.Tx.{Session, need_begin_tx, handle_commit, handle_set_auto_commit, finish}

-- `SET autocommit` to the number that starts with the digit.
abbrev pub set_to : ℕ → List ℕ → Session → Session
set_to digit rest s = (handle_set_auto_commit (num_val (digit ∷ rest)) s).1

-- Once a client has set autocommit to 0, setting it to 1 does not bring it back, and a COMMIT brings
-- it back though nothing asked for it.
pub handle_set_auto_commit-handle_commit :
    (zeros ones : List ℕ) (answers : ℕ → Bool) (s : Session)
    → (need_begin_tx (set_to b'1' ones (set_to b'0' zeros s)) ≡ true)
      × (need_begin_tx (handle_commit answers (set_to b'0' zeros s)).1 ≡ false)
unfolding handle_set_auto_commit handle_commit need_begin_tx finish
handle_set_auto_commit-handle_commit zeros ones answers s = ground arith
