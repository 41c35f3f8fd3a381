-- ===== src/Proxy/Tx/Ledger.antt =====
-- proxy/conn_tx.go: the transactions that a session has begun.
use cm.Common.{
  ℕ, ◌+◌, List, [], ◌∷◌, ◌++◌, Bool, true, false, not, Option, none, some, ◌==◌, if◌then◌else◌, ◌≡◌,
  refl, arith, Result, err, bad_conn, Bool-cases, inl, inr,
}
use cm.Sqlparser.Ast.{ValExpr, num_val}
use cm.Proxy.Tx.{
  Event, opened, begun, committed, rolled_back, closed, Session, need_begin_tx, handle_begin,
  endings, finish, handle_commit, handle_rollback, handle_set_auto_commit, conn_of, Backend,
  prepare, begin_on, on_master, tx_conn, plain_conn, get_conn, close_all, close_shard_conns, Step,
  Reachable, begins, commits, rolls_back, sets, gets, closes, start, later, record_event,
}

abbrev one_if : Bool → ℕ
one_if true = 1
one_if false = 0

-- How often a transaction was begun on the connection, and how often one was ended.
pub begins_of : ℕ → List Event → ℕ
begins_of co [] = 0
begins_of co (begun c ∷ es) = one_if (c == co) + begins_of co es
begins_of co (e ∷ es) = begins_of co es

pub ends_of : ℕ → List Event → ℕ
ends_of co [] = 0
ends_of co (committed c ∷ es) = one_if (c == co) + ends_of co es
ends_of co (rolled_back c ∷ es) = one_if (c == co) + ends_of co es
ends_of co (e ∷ es) = ends_of co es

-- How often the session holds the connection.
unfoldable pub held : ℕ → List (ℕ × ℕ) → ℕ
held co [] = 0
held co ((shard, c) ∷ cs) = one_if (c == co) + held co cs

begins_of-append :
    (co : ℕ) (xs ys : List Event) → begins_of co (xs ++ ys) ≡ begins_of co xs + begins_of co ys
unfolding begins_of
begins_of-append co [] ys = omega arith
begins_of-append co (begun c ∷ xs) ys = omega (arith, begins_of-append co xs ys)
begins_of-append co (e ∷ xs) ys = begins_of-append co xs ys

ends_of-append :
    (co : ℕ) (xs ys : List Event) → ends_of co (xs ++ ys) ≡ ends_of co xs + ends_of co ys
unfolding ends_of
ends_of-append co [] ys = omega arith
ends_of-append co (committed c ∷ xs) ys = omega (arith, ends_of-append co xs ys)
ends_of-append co (rolled_back c ∷ xs) ys = omega (arith, ends_of-append co xs ys)
ends_of-append co (e ∷ xs) ys = ends_of-append co xs ys

-- The transactions begun are those ended and those held, and one is held only in a transaction.
abbrev IsBalanced : ℕ → Session → Type 0
IsBalanced co s =
    (begins_of co s.trace ≡ ends_of co s.trace + held co s.tx_conns)
    × (need_begin_tx s ≡ false → s.tx_conns ≡ [])

-- An event that neither begins nor ends a transaction.
quiet :
    (co : ℕ) (e : Event) (s : Session)
    → begins_of co (e ∷ []) ≡ 0
    → ends_of co (e ∷ []) ≡ 0
    → IsBalanced co s
    → IsBalanced co (record_event e s)
quiet co e s p q (b, n) = (
  omega (arith, p, q, b, begins_of-append co s.trace (e ∷ []), ends_of-append co s.trace (e ∷ [])),
  unfold need_begin_tx in n,
)

opened-quiet :
    (co c : ℕ) (s : Session) → IsBalanced co s → IsBalanced co (record_event (opened c) s)
unfolding begins_of ends_of
opened-quiet co c s h = quiet co (opened c) s refl refl h

closed-quiet :
    (co c : ℕ) (s : Session) → IsBalanced co s → IsBalanced co (record_event (closed c) s)
unfolding begins_of ends_of
closed-quiet co c s h = quiet co (closed c) s refl refl h

close_all-IsBalanced :
    (co : ℕ) (cs : List ℕ) (s : Session) → IsBalanced co s → IsBalanced co (close_all cs s)
unfolding close_all
close_all-IsBalanced co [] s h = h
close_all-IsBalanced co (c ∷ cs) s h =
    close_all-IsBalanced co cs (record_event (closed c) s) (closed-quiet co c s h)

-- What `commit` and `rollback` ask for is one ending for each connection that is held.
endings-committed :
    (co : ℕ) (cs : List (ℕ × ℕ))
    → (begins_of co (endings committed cs) ≡ 0) × (ends_of co (endings committed cs) ≡ held co cs)
unfolding begins_of ends_of endings held
endings-committed co [] = (refl, refl)
endings-committed co ((shard, c) ∷ cs) = omega (arith, endings-committed co cs)

endings-rolled_back :
    (co : ℕ) (cs : List (ℕ × ℕ))
    → (begins_of co (endings rolled_back cs) ≡ 0)
      × (ends_of co (endings rolled_back cs) ≡ held co cs)
unfolding begins_of ends_of endings held
endings-rolled_back co [] = (refl, refl)
endings-rolled_back co ((shard, c) ∷ cs) = omega (arith, endings-rolled_back co cs)

finish-IsBalanced :
    (co : ℕ) (ending : ℕ → Event) (s : Session)
    → (begins_of co (endings ending s.tx_conns) ≡ 0)
      × (ends_of co (endings ending s.tx_conns) ≡ held co s.tx_conns)
    → IsBalanced co s
    → IsBalanced co (finish ending s)
unfolding finish held
finish-IsBalanced co ending s e (b, n) = (
  omega (
    arith,
    e,
    b,
    begins_of-append co s.trace (endings ending s.tx_conns),
    ends_of-append co s.trace (endings ending s.tx_conns),
  ),
  λ _. refl,
)

if-IsBalanced :
    {A : Type 0} (co : ℕ) (b : Bool) (x y : A × Session)
    → (b ≡ true → IsBalanced co x.1)
    → (b ≡ false → IsBalanced co y.1)
    → IsBalanced co (if b then x else y).1
if-IsBalanced co true x y h k = h refl
if-IsBalanced co false x y h k = k refl

begin_on-IsBalanced :
    (co : ℕ) (b : Backend) (shard c : ℕ) (s : Session)
    → need_begin_tx s ≡ true
    → IsBalanced co s
    → IsBalanced co (begin_on b shard c s).1
unfolding begin_on prepare begins_of ends_of held need_begin_tx
begin_on-IsBalanced co b shard c s t (h, n) =
    if-IsBalanced co b.begins _ (err bad_conn, s)
      (λ _. (
        omega (
          arith,
          h,
          begins_of-append co s.trace (begun c ∷ []),
          ends_of-append co s.trace (begun c ∷ []),
        ),
        λ z. absurd (cc (t, z)),
      ))
      (λ _. (h, n))

on_master-IsBalanced :
    (co : ℕ) (found : Option ℕ) (s : Session) (next : ℕ → Session → Result ℕ × Session)
    → IsBalanced co s
    → ((c : ℕ)
        → IsBalanced co (record_event (opened c) s)
        → IsBalanced co (next c (record_event (opened c) s)).1)
    → IsBalanced co (on_master found s next).1
unfolding on_master
on_master-IsBalanced co none s next h k = h
on_master-IsBalanced co (some c) s next h k = k c (opened-quiet co c s h)

tx_conn-IsBalanced :
    (co : ℕ) (b : Backend) (shard : ℕ) (found : Option ℕ) (s : Session)
    → need_begin_tx s ≡ true
    → IsBalanced co s
    → IsBalanced co (tx_conn b shard found s).1
unfolding tx_conn
tx_conn-IsBalanced co b shard (some c) s t h = unfold prepare in h
tx_conn-IsBalanced co b shard none s t h =
    on_master-IsBalanced co b.conn s (λ co s. begin_on b shard co s) h
      (λ c k.
        begin_on-IsBalanced co b shard c (record_event (opened c) s) (unfold need_begin_tx in t) k)

get_conn-IsBalanced :
    (co : ℕ) (b : Backend) (shard : ℕ) (s : Session)
    → IsBalanced co s
    → IsBalanced co (get_conn b shard s).1
unfolding get_conn plain_conn
get_conn-IsBalanced co b shard s h =
    if-IsBalanced co (not (need_begin_tx s)) _ _
      (λ _.
        on_master-IsBalanced co b.conn s (λ co s. prepare b co s) h (λ c k. unfold prepare in k))
      (λ e. tx_conn-IsBalanced co b shard (conn_of shard s.tx_conns) s (ground (arith, e)) h)

set-IsBalanced :
    (co : ℕ) (e : ValExpr) (s : Session)
    → IsBalanced co s
    → IsBalanced co (handle_set_auto_commit e s).1
unfolding handle_set_auto_commit need_begin_tx
set-IsBalanced co (num_val []) s h = h
set-IsBalanced co (num_val (c ∷ cs)) s (h, n) =
    if-IsBalanced co (c == b'1') _ _ (λ _. (h, n))
      (λ _. if-IsBalanced co (c == b'0') _ _ (λ _. (h, λ z. ground (arith, z))) (λ _. (h, n)))
set-IsBalanced co e s h = h

close_shard_conns-IsBalanced :
    (co : ℕ) (cs : List ℕ) (s : Session) → IsBalanced co s → IsBalanced co (close_shard_conns cs s)
unfolding close_shard_conns
close_shard_conns-IsBalanced co cs s h = elim (Bool-cases (need_begin_tx s)) [
  | inl e ↦ rw e h
  | inr e ↦ rw e (close_all-IsBalanced co cs s h)
]

Step-IsBalanced : (co : ℕ) (s t : Session) → Step s t → IsBalanced co s → IsBalanced co t
Step-IsBalanced co s t begins (b, n) = unfold handle_begin need_begin_tx in (b, λ e. absurd (cc e))
Step-IsBalanced co s t (commits answers) h =
    unfold handle_commit in finish-IsBalanced co committed s (endings-committed co s.tx_conns) h
Step-IsBalanced co s t (rolls_back answers) h =
    unfold handle_rollback in
    finish-IsBalanced co rolled_back s (endings-rolled_back co s.tx_conns) h
Step-IsBalanced co s t (sets e) h = set-IsBalanced co e s h
Step-IsBalanced co s t (gets b shard) h = get_conn-IsBalanced co b shard s h
Step-IsBalanced co s t (closes cs) h = close_shard_conns-IsBalanced co cs s h

Reachable-IsBalanced : (co : ℕ) (s : Session) → Reachable s → IsBalanced co s
Reachable-IsBalanced co s start = unfold begins_of ends_of held in (refl, λ _. refl)
Reachable-IsBalanced co s (later {s = r} reached step) =
    Step-IsBalanced co r s step (Reachable-IsBalanced co r reached)

-- In every session that statements lead to, each transaction that was begun on a connection is
-- either ended by a commit or a rollback, once, or still held by the session.
pub begins_of-Reachable :
    (co : ℕ) (s : Session)
    → Reachable s
    → begins_of co s.trace ≡ ends_of co s.trace + held co s.tx_conns
begins_of-Reachable co s r = (Reachable-IsBalanced co s r).0

-- A session that needs no transaction holds no connection of one.
pub tx_conns-Reachable : (s : Session) → Reachable s → need_begin_tx s ≡ false → s.tx_conns ≡ []
tx_conns-Reachable s r = (Reachable-IsBalanced 0 s r).1
