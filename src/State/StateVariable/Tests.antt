-- ===== src/State/StateVariable/Tests.antt =====
-- Runs of StateVariable.cpp and RollbackList.cpp on one small history, and the theorems on them.
use pdesmas_cloud.Base.{ℕ, ◌≡◌, ◌⊎◌, refl, inl, List, [], ◌∷◌, some, arith, ulong_max}
use pdesmas_cloud.Lp.LpId.{LpId, lp_gt, lp_lt, lp_equiv}
use pdesmas_cloud.Lp.RollbackList.{find, insert_new, add_lp}
use pdesmas_cloud.Lp.RollbackList.Covers.{add_lp-Covers, Covers}
use pdesmas_cloud.State.WritePeriod.{
  WritePeriod, insert_read, reads_before, roll_back_reads, roll_back_all, remove_reads_before,
  remove_reads_after_inclusive, remove_reads_by_agent, remove_all_reads, new_write_period,
}
use pdesmas_cloud.State.WritePeriod
use pdesmas_cloud.State.StateVariable.{
  write_success, walk_back, read, add_write_period, remove_write_periods, read_without_record,
  insert_write, write_with_rollback, perform_write_rollback,
}
use pdesmas_cloud.State.StateVariable.Walk.{current, value_at}
use pdesmas_cloud.State.StateVariable.Chain.{IsChain}
use pdesmas_cloud.State.StateVariable.Writes.{
  value_at-write_with_rollback, read_without_record-remove_write_periods,
  value_at-perform_write_rollback,
}
use pdesmas_cloud.State.StateVariable.Stragglers.{write-read}
use pdesmas_cloud.State.StateVariable.Reach.{created, stepped, by_write, by_gvt, Reachable-IsChain}

abbrev writer : LpId
writer = record { identifier = 7; rank = 3 }

abbrev reader : LpId
reader = record { identifier = 5; rank = 2 }

-- Written 10 at 0 and 20 at 6.
abbrev two_writes : List (WritePeriod ℕ)
two_writes =
    record { start_time = 0; end_time = 6; value = some 10; agent = writer; agent_read_map = [] }
    ∷ new_write_period (some 20) 6 writer
    ∷ []

abbrev after_read : List (WritePeriod ℕ)
after_read =
    record {
      start_time = 0;
      end_time = 6;
      value = some 10;
      agent = writer;
      agent_read_map = (reader, 4) ∷ [];
    }
    ∷ new_write_period (some 20) 6 writer
    ∷ []

two_writes-IsChain : IsChain two_writes
two_writes-IsChain = ((refl, omega arith), (inl refl, tt))

read_at_4 : read reader 4 two_writes ≡ some (after_read, some 10)
unfolding read walk_back WritePeriod.read insert_read
read_at_4 = refl

write_at_3 : (write_with_rollback writer (some 15) 3 after_read []).2 ≡ (reader, 4) ∷ []
unfolding write_with_rollback walk_back insert_write remove_reads_after_inclusive roll_back_reads
    add_lp find insert_new lp_gt lp_equiv lp_lt reads_before
write_at_3 = refl

write_at_3-done : (write_with_rollback writer (some 15) 3 after_read []).1 ≡ write_success
unfolding write_with_rollback walk_back insert_write remove_reads_after_inclusive roll_back_reads
    add_lp find insert_new lp_gt lp_equiv lp_lt reads_before
write_at_3-done = refl

first_write-done : (write_with_rollback writer (some 15) 3 two_writes []).1 ≡ write_success
unfolding write_with_rollback walk_back insert_write remove_reads_after_inclusive roll_back_reads
    add_lp find insert_new lp_gt lp_equiv lp_lt reads_before
first_write-done = refl

value_at-write_with_rollback_example :
    value_at 4 (write_with_rollback writer (some 15) 3 two_writes []).0 ≡ some 15
unfolding write_with_rollback walk_back insert_write remove_reads_after_inclusive roll_back_reads
    add_lp find insert_new lp_gt lp_equiv lp_lt reads_before read_without_record value_at current
value_at-write_with_rollback_example =
    value_at-write_with_rollback 4 3 writer (some 15) two_writes [] two_writes-IsChain (omega arith)

read_without_record-remove_write_periods_example :
    read_without_record 7 (remove_write_periods 5 two_writes) ≡ (ulong_max, some 20)
unfolding read_without_record walk_back
read_without_record-remove_write_periods_example =
    read_without_record-remove_write_periods 7 5 two_writes (omega arith)

value_at-perform_write_rollback_example :
    value_at 4
      (perform_write_rollback writer 3
        (write_with_rollback writer (some 15) 3 two_writes []).0
        []).0
    ≡ some 10
unfolding value_at current
value_at-perform_write_rollback_example =
    value_at-perform_write_rollback 4 3 writer (some 15) two_writes [] []
      ((λ e. omega (arith, e)), ((λ e. omega (arith, e)), tt)) first_write-done

write-read_example :
    (value_at 4 (write_with_rollback writer (some 15) 3 after_read []).0 ≡ some 10)
    ⊎ Covers reader 4 (write_with_rollback writer (some 15) 3 after_read []).2
write-read_example =
    write-read reader writer 3 4 (some 15) (some 10) two_writes after_read [] two_writes-IsChain
      (omega arith) read_at_4 write_at_3-done

Reachable-IsChain_example : IsChain {V = ℕ} (
    remove_write_periods 4
      (write_with_rollback writer (some 20) 6 (add_write_period (some 10) 0 writer []) []).0)
Reachable-IsChain_example =
    Reachable-IsChain _
      (stepped (stepped (created (some 10) 0 writer) (by_write writer (some 20) 6 [])) (by_gvt 4))

one_request-Covers : Covers writer 5 ((writer, 5) ∷ [])
unfolding lp_equiv lp_lt
one_request-Covers = inl (refl, omega arith)

add_lp-Covers_example : Covers writer 5 (add_lp reader 4 ((writer, 5) ∷ []))
add_lp-Covers_example = add_lp-Covers reader writer 4 5 ((writer, 5) ∷ []) one_request-Covers
