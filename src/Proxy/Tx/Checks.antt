-- ===== src/Proxy/Tx/Checks.antt =====
-- Runs of a session, and the theorems at one with a transaction on two shards.
use cm.Common.{ℕ, ◌+◌, ◌≡◌, refl, [], ◌∷◌, Bool, true, false, some}
use cm.Proxy.Tx.{
  Session, Backend, opened, begun, committed, closed, new_session, handle_begin, handle_commit,
  get_conn, tx_conn, on_master, begin_on, prepare, conn_of, need_begin_tx, finish, endings,
  Reachable, start, later, begins, commits, gets,
}
use cm.Proxy.Tx.Ledger.{begins_of, ends_of, held, begins_of-Reachable, tx_conns-Reachable}

abbrev gives : ℕ → Backend
gives co = record { conn = some co; begins = true; uses_db = true; sets_charset = true }

abbrev yes : ℕ → Bool
yes co = true

-- BEGIN, then a statement on the shards 0 and 1.
abbrev in_two : Session
in_two = (get_conn (gives 8) 1 (get_conn (gives 7) 0 (handle_begin new_session)).1).1

in_two-Reachable : Reachable in_two
in_two-Reachable = later (later (later start begins) (gets (gives 7) 0)) (gets (gives 8) 1)

begins_of-Reachable_example :
    begins_of 7 in_two.trace ≡ ends_of 7 in_two.trace + held 7 in_two.tx_conns
begins_of-Reachable_example = begins_of-Reachable 7 in_two in_two-Reachable

holds_7 : held 7 in_two.tx_conns ≡ 1
unfolding held get_conn tx_conn on_master begin_on prepare conn_of need_begin_tx handle_begin
holds_7 = refl

commits_two :
    (handle_commit yes in_two).1.trace
    ≡ opened 7 ∷ begun 7 ∷ opened 8 ∷ begun 8 ∷ committed 8 ∷ closed 8 ∷ committed 7 ∷ closed 7 ∷ []
unfolding handle_commit finish endings get_conn tx_conn on_master begin_on prepare conn_of
    need_begin_tx handle_begin
commits_two = refl

abbrev done : Session
done = (handle_commit yes in_two).1

done_needs_none : need_begin_tx done ≡ false
unfolding handle_commit finish need_begin_tx
done_needs_none = refl

tx_conns-Reachable_example : done.tx_conns ≡ []
tx_conns-Reachable_example =
    tx_conns-Reachable done (later in_two-Reachable (commits yes)) done_needs_none
