-- ===== src/Proxy/Tx.antt =====
-- proxy/conn_tx.go, conn_set.go, and the connections of conn_query.go: a session's transaction.
-- The session keeps the two bits of its status that this code reads, the connections of its
-- transaction by shard, and a trace of what was asked of the connections. What the servers and the
-- pool answer is an argument of each operation.
pub mod Ledger
pub mod Autocommit
mod Checks
use cm.Common.{
  ℕ, suc, List, [], ◌∷◌, ◌++◌, Bool, true, false, not, ◌&&◌, ◌||◌, Option, none, some, ◌==◌,
  if◌then◌else◌, Error, bad_conn, invalid_autocommit, Result, ok, err, panic, ◌≡◌,
}
use cm.Sqlparser.Ast.{
  ValExpr, num_val, str_val, val_arg, list_arg, null_val, col_name, val_tuple, subquery,
  binary_expr, unary_expr, func_expr, case_expr,
}

-- A connection is a number that the pool gives it.
pub data Event : Type 0 where
  opened begun committed rolled_back closed : ℕ → Event

pub record Session : Type 0 where
  pub in_trans : Bool
  pub autocommit : Bool
  -- Shard and connection.
  pub tx_conns : List (ℕ × ℕ)
  pub trace : List Event

abbrev pub new_session : Session
new_session = record { in_trans = false; autocommit = true; tx_conns = []; trace = [] }

pub need_begin_tx : Session → Bool
need_begin_tx s = s.in_trans || not s.autocommit

pub handle_begin : Session → Session
handle_begin s = record s { in_trans = true }

-- The loop of `commit` or `rollback`: the end of a transaction, whatever the server answers, and
-- `Close`.
pub endings : (ℕ → Event) → List (ℕ × ℕ) → List Event
endings ending [] = []
endings ending ((shard, co) ∷ cs) = ending co ∷ closed co ∷ endings ending cs

pub finish : (ℕ → Event) → Session → Session
finish ending s = record {
  in_trans = false;
  autocommit = true;
  tx_conns = [];
  trace = s.trace ++ endings ending s.tx_conns;
}

all_answer : (ℕ → Bool) → List (ℕ × ℕ) → Bool
all_answer answers [] = true
all_answer answers ((shard, co) ∷ cs) = answers co && all_answer answers cs

-- The reply, and the session.
pub handle_commit : (ℕ → Bool) → Session → Result (Unit {0}) × Session
handle_commit answers s =
    (if all_answer answers s.tx_conns then ok tt else err bad_conn, finish committed s)

pub handle_rollback : (ℕ → Bool) → Session → Result (Unit {0}) × Session
handle_rollback answers s =
    (if all_answer answers s.tx_conns then ok tt else err bad_conn, finish rolled_back s)

-- The value's first character decides; it panics on an empty one.
pub handle_set_auto_commit : ValExpr → Session → Result (Unit {0}) × Session
handle_set_auto_commit (num_val []) s = (panic, s)
handle_set_auto_commit (num_val (c ∷ cs)) s =
    if c == b'1'
    then (ok tt, s)
    else if c == b'0'
    then (ok tt, record s { autocommit = false })
    else (err invalid_autocommit, s)
handle_set_auto_commit e s = (err invalid_autocommit, s)

pub conn_of : ℕ → List (ℕ × ℕ) → Option ℕ
conn_of shard [] = none
conn_of shard ((s, co) ∷ cs) = if s == shard then some co else conn_of shard cs

-- What one `getConn` gets: a connection of the pool, and the answers to `Begin`, `UseDB` and
-- `SetCharset`.
pub record Backend : Type 0 where
  pub conn : Option ℕ
  pub begins : Bool
  pub uses_db : Bool
  pub sets_charset : Bool

abbrev pub record_event : Event → Session → Session
record_event e s = record s { trace = s.trace ++ e ∷ [] }

abbrev pub hold : ℕ → ℕ → Session → Session
hold shard co s = record s { tx_conns = (shard, co) ∷ s.tx_conns }

pub prepare : Backend → ℕ → Session → Result ℕ × Session
prepare b co s = (if b.uses_db && b.sets_charset then ok co else err bad_conn, s)

pub begin_on : Backend → ℕ → ℕ → Session → Result ℕ × Session
begin_on b shard co s =
    if b.begins then prepare b co (hold shard co (record_event (begun co) s)) else (err bad_conn, s)

-- `getMasterConn`, and what follows where it gives a connection.
pub on_master : Option ℕ → Session → (ℕ → Session → Result ℕ × Session) → Result ℕ × Session
on_master none s next = (err bad_conn, s)
on_master (some co) s next = next co (record_event (opened co) s)

pub tx_conn : Backend → ℕ → Option ℕ → Session → Result ℕ × Session
tx_conn b shard (some co) s = prepare b co s
tx_conn b shard none s = on_master b.conn s (λ co s. begin_on b shard co s)

pub plain_conn : Backend → Session → Result ℕ × Session
plain_conn b s = on_master b.conn s (λ co s. prepare b co s)

pub get_conn : Backend → ℕ → Session → Result ℕ × Session
get_conn b shard s =
    if not (need_begin_tx s) then plain_conn b s else tx_conn b shard (conn_of shard s.tx_conns) s

pub close_all : List ℕ → Session → Session
close_all [] s = s
close_all (co ∷ cs) s = close_all cs (record_event (closed co) s)

pub close_shard_conns : List ℕ → Session → Session
close_shard_conns cs s = if need_begin_tx s then s else close_all cs s

-- What the client's statements do to its session.
pub data Step (s : Session) : Session → Type 0 where
  begins : Step s (handle_begin s)
  commits : (answers : ℕ → Bool) → Step s (handle_commit answers s).1
  rolls_back : (answers : ℕ → Bool) → Step s (handle_rollback answers s).1
  sets : (e : ValExpr) → Step s (handle_set_auto_commit e s).1
  gets : (b : Backend) (shard : ℕ) → Step s (get_conn b shard s).1
  closes : (cs : List ℕ) → Step s (close_shard_conns cs s)

pub data Reachable : Session → Type 0 where
  start : Reachable new_session
  later : {s t : Session} → Reachable s → Step s t → Reachable t
