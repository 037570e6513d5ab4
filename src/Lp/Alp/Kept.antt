-- ===== src/Lp/Alp/Kept.antt =====
-- Alp.cpp: what stays on the send list and on the list of seen rollbacks, over whatever happens.
use pdesmas_cloud.Base.{
  ℕ, ◌≤◌, ◌≡◌, ◌≢◌, refl, List, [], ◌∷◌, ◌++◌, true, false, ltb, arith, Any, Bool-cases, ◌⊎◌, inl,
  inr, subst, sym, ap, ◌∙◌, ◌==◌,
}
use pdesmas_cloud.Interface.SendList.{
  is_undone, rollback_send_list, clear_send_list, remove_from_send_list,
}
use pdesmas_cloud.Interface.RollbackTagList.{
  has_tag, has_tag-longer, has_tag-clear, check_rollback_tag_list,
}
use pdesmas_cloud.Lp.Alp.{Alp, set_gvt, get_new_message_id, get_cancel_flag, trigger_self_restart}
use pdesmas_cloud.Lp.Alp.{start_all_agents, finalise, send_end_message}
use pdesmas_cloud.Lp.Alp.Events.{
  Event, Happens, Run, nothing, then, sets_time, works, sends, is_answered, write_is_answered,
  rolls_back, takes_gvt, restarts, adds_agent, takes_id, reads_flag, takes_response, wants_restart,
  starts_agents, ends,
}
use pdesmas_cloud.Lp.Alp.Lists.{
  set_agent_lvt-SameLists, hand_over-SameLists, do_self_restart-SameLists, process_rollback-lists,
  add_agent-SameLists, get_response_message-SameLists, send-lists, process_write_response-lists,
}
use pdesmas_cloud.Lp.LpId.{LpId}
use pdesmas_cloud.Lp.RollbackTag.{RollbackTag}
use pdesmas_cloud.Messages.SharedStateMessage.{AnySharedState, timestamp, identifier}
use pdesmas_cloud.State.StateVariable.{write_success}

-- A request is on a list.
abbrev pub Holds : AnySharedState → List AnySharedState → Type 0
Holds n = Any (λ m. m ≡ n)

-- What takes a request off the send list is a rollback that undoes it, the answer that it is a write
-- that failed, and a GVT behind its time; these are the events that do not.
abbrev pub Spares : AnySharedState → Event → Type 0
Spares n (rolls_back m done) = is_undone m.simulation.timestamp m.original_agent n ≡ false
Spares n (write_is_answered r) =
    (r.write_status ≡ write_success) ⊎ (r.base.identifier ≢ identifier n)
Spares n (takes_gvt gvt) = gvt ≤ timestamp n
Spares n (sets_time agent t) = Unit
Spares n (works lp) = Unit
Spares n (sends m) = Unit
Spares n (is_answered agent id m) = Unit
Spares n restarts = Unit
Spares n (adds_agent agent) = Unit
Spares n takes_id = Unit
Spares n (reads_flag agent) = Unit
Spares n (takes_response agent m) = Unit
Spares n (wants_restart agent) = Unit
Spares n starts_agents = Unit
Spares n ends = Unit

Holds-append : (n : AnySharedState) (ms ns : List AnySharedState) → Holds n ms → Holds n (ms ++ ns)
Holds-append n [] ns h = absurd h.lower
Holds-append n (m ∷ ms) ns (inl e) = inl e
Holds-append n (m ∷ ms) ns (inr h) = inr (Holds-append n ms ns h)

pub Holds-last : (n : AnySharedState) (ms : List AnySharedState) → Holds n (ms ++ n ∷ [])
Holds-last n [] = inl refl
Holds-last n (m ∷ ms) = inr (Holds-last n ms)

Holds-rollback :
    (n : AnySharedState) (t : ℕ) (agent : LpId) (ms : List AnySharedState)
    → is_undone t agent n ≡ false
    → Holds n ms
    → Holds n (rollback_send_list t agent ms).0
unfolding rollback_send_list
Holds-rollback n t agent [] e h = absurd h.lower
Holds-rollback n t agent (m ∷ ms) e (inl same) =
    let stays : is_undone t agent m ≡ false = rw same e in rw (rollback_send_list, stays) (inl same)
Holds-rollback n t agent (m ∷ ms) e (inr h) = elim (Bool-cases (is_undone t agent m)) [
  | inl gone ↦ rw (rollback_send_list, gone) (Holds-rollback n t agent ms e h)
  | inr stays ↦ rw (rollback_send_list, stays) (inr (Holds-rollback n t agent ms e h))
]

Holds-clear :
    (n : AnySharedState) (t : ℕ) (ms : List AnySharedState)
    → t ≤ timestamp n
    → Holds n ms
    → Holds n (clear_send_list t ms)
unfolding clear_send_list
Holds-clear n t [] le h = absurd h.lower
Holds-clear n t (m ∷ ms) le (inl same) =
    let stays : ltb (timestamp m) t ≡ false = rw same (ground arith) in
    rw (clear_send_list, stays) (inl same)
Holds-clear n t (m ∷ ms) le (inr h) = elim (Bool-cases (ltb (timestamp m) t)) [
  | inl gone ↦ rw (clear_send_list, gone) (Holds-clear n t ms le h)
  | inr stays ↦ rw (clear_send_list, stays) (inr (Holds-clear n t ms le h))
]

Holds-remove :
    (n : AnySharedState) (id : ℕ) (ms : List AnySharedState)
    → id ≢ identifier n
    → Holds n ms
    → Holds n (remove_from_send_list id ms).0
unfolding remove_from_send_list
Holds-remove n id [] ne h = absurd h.lower
Holds-remove n id (m ∷ ms) ne (inl same) =
    let stays : identifier m == id ≡ false = rw same (ground arith) in
    rw (remove_from_send_list, stays) (inl same)
Holds-remove n id (m ∷ ms) ne (inr h) = elim (Bool-cases (identifier m == id)) [
  | inl gone ↦ rw (remove_from_send_list, gone) h
  | inr stays ↦ rw (remove_from_send_list, stays) (inr (Holds-remove n id ms ne h))
]

same-Holds : (n : AnySharedState) (ms ns : List AnySharedState) → ns ≡ ms → Holds n ms → Holds n ns
same-Holds n ms ns e h = subst (Holds n) (sym e) h

Happens-Holds :
    (n : AnySharedState) (e : Event) (a b : Alp)
    → Spares n e
    → Happens e a b
    → Holds n a.send_list
    → Holds n b.send_list
unfolding set_gvt get_new_message_id get_cancel_flag trigger_self_restart start_all_agents finalise
    send_end_message
Happens-Holds n (sets_time agent t) a b ok e h =
    same-Holds n a.send_list b.send_list (set_agent_lvt-SameLists agent t a b e).0 h
Happens-Holds n (works lp) a b ok e h =
    same-Holds n a.send_list b.send_list (ap (λ (x : Alp). x.send_list) (sym e)) h
Happens-Holds n (sends m) a b ok e h = elim (send-lists m a b e).0 [
  | inl same ↦ same-Holds n a.send_list b.send_list same h
  | inr (x, longer) ↦
      same-Holds n (a.send_list ++ x ∷ []) b.send_list longer
        (Holds-append n a.send_list (x ∷ []) h)
]
Happens-Holds n (is_answered agent id m) a b ok e h =
    same-Holds n a.send_list b.send_list (hand_over-SameLists agent id m a b e).0 h
Happens-Holds n (write_is_answered r) a b ok e h = elim (process_write_response-lists r a b e).0 [
  | inl same ↦ same-Holds n a.send_list b.send_list same h
  | inr (failed, shorter) ↦ elim ok [
    | inl succeeded ↦ cc
    | inr another ↦
        same-Holds n (remove_from_send_list r.base.identifier a.send_list).0 b.send_list shorter
          (Holds-remove n r.base.identifier a.send_list another h)
  ]
]
Happens-Holds n (rolls_back m done) a b ok e h = elim (process_rollback-lists m a b done e).0 [
  | inl same ↦ same-Holds n a.send_list b.send_list same h
  | inr shorter ↦
      let t = m.simulation.timestamp in
      same-Holds n (rollback_send_list t m.original_agent a.send_list).0 b.send_list shorter
        (Holds-rollback n t m.original_agent a.send_list ok h)
]
Happens-Holds n (takes_gvt gvt) a b ok e h =
    same-Holds n (clear_send_list gvt a.send_list) b.send_list
      (ap (λ (x : Alp). x.send_list) (sym e)) (Holds-clear n gvt a.send_list ok h)
Happens-Holds n restarts a b ok e h =
    same-Holds n a.send_list b.send_list (do_self_restart-SameLists a b e).0 h
Happens-Holds n (adds_agent agent) a b ok e h =
    same-Holds n a.send_list b.send_list
      (ap (λ (x : Alp). x.send_list) (sym e) ∙ (add_agent-SameLists agent a).0) h
Happens-Holds n takes_id a b ok e h =
    same-Holds n a.send_list b.send_list (ap (λ (x : Alp). x.send_list) (sym e)) h
Happens-Holds n (reads_flag agent) a b ok e h =
    same-Holds n a.send_list b.send_list (ap (λ (x : Alp). x.send_list) (sym e)) h
Happens-Holds n (takes_response agent m) a b ok e h =
    same-Holds n a.send_list b.send_list (get_response_message-SameLists agent m a b e).0 h
Happens-Holds n (wants_restart agent) a b ok e h =
    same-Holds n a.send_list b.send_list (ap (λ (x : Alp). x.send_list) (sym e)) h
Happens-Holds n starts_agents a b ok e h =
    same-Holds n a.send_list b.send_list (ap (λ (x : Alp). x.send_list) (sym e)) h
Happens-Holds n ends a b ok e h =
    same-Holds n a.send_list b.send_list (ap (λ (x : Alp). x.send_list) (sym e)) h

-- A request stays on the send list over every run of events that spare it.
pub Run-Holds :
    (n : AnySharedState) (a b : Alp)
    → Run (Spares n) a b
    → Holds n a.send_list
    → Holds n b.send_list
Run-Holds n a _ nothing h = h
Run-Holds n a _ (then {b} {c} e before ok step) h =
    Happens-Holds n e b c ok step (Run-Holds n a b before h)

-- What takes a tag off the list is a GVT behind its time.
abbrev pub Remembers : RollbackTag → Event → Type 0
Remembers u (takes_gvt gvt) = gvt ≤ u.time
Remembers u (sets_time agent t) = Unit
Remembers u (works lp) = Unit
Remembers u (sends m) = Unit
Remembers u (is_answered agent id m) = Unit
Remembers u (write_is_answered r) = Unit
Remembers u (rolls_back m done) = Unit
Remembers u restarts = Unit
Remembers u (adds_agent agent) = Unit
Remembers u takes_id = Unit
Remembers u (reads_flag agent) = Unit
Remembers u (takes_response agent m) = Unit
Remembers u (wants_restart agent) = Unit
Remembers u starts_agents = Unit
Remembers u ends = Unit

has_tag-more :
    (u v : RollbackTag) (us : List RollbackTag)
    → has_tag u us ≡ true
    → has_tag u (check_rollback_tag_list v us).0 ≡ true
unfolding check_rollback_tag_list
has_tag-more u v us e = elim (Bool-cases (has_tag v us)) [
  | inl old ↦ rw (check_rollback_tag_list, old) e
  | inr new ↦ rw (check_rollback_tag_list, new) (has_tag-longer u v us e)
]

Happens-has_tag :
    (u : RollbackTag) (e : Event) (a b : Alp)
    → Remembers u e
    → Happens e a b
    → has_tag u a.rollback_tag_list ≡ true
    → has_tag u b.rollback_tag_list ≡ true
unfolding set_gvt get_new_message_id get_cancel_flag trigger_self_restart start_all_agents finalise
    send_end_message
Happens-has_tag u (sets_time agent t) a b ok e h = rw (set_agent_lvt-SameLists agent t a b e).1 h
Happens-has_tag u (works lp) a b ok e h = rw (← e) h
Happens-has_tag u (sends m) a b ok e h = rw (send-lists m a b e).1 h
Happens-has_tag u (is_answered agent id m) a b ok e h =
    rw (hand_over-SameLists agent id m a b e).1 h
Happens-has_tag u (write_is_answered r) a b ok e h = rw (process_write_response-lists r a b e).1 h
Happens-has_tag u (rolls_back m done) a b ok e h =
    rw (process_rollback-lists m a b done e).1 (has_tag-more u m.rollback_tag a.rollback_tag_list h)
Happens-has_tag u (takes_gvt gvt) a b ok e h =
    rw (← e) (has_tag-clear gvt u a.rollback_tag_list ok h)
Happens-has_tag u restarts a b ok e h = rw (do_self_restart-SameLists a b e).1 h
Happens-has_tag u (adds_agent agent) a b ok e h = rw (← e) (rw (add_agent-SameLists agent a).1 h)
Happens-has_tag u takes_id a b ok e h = rw (← e) h
Happens-has_tag u (reads_flag agent) a b ok e h = rw (← e) h
Happens-has_tag u (takes_response agent m) a b ok e h =
    rw (get_response_message-SameLists agent m a b e).1 h
Happens-has_tag u (wants_restart agent) a b ok e h = rw (← e) h
Happens-has_tag u starts_agents a b ok e h = rw (← e) h
Happens-has_tag u ends a b ok e h = rw (← e) h

pub Run-has_tag :
    (u : RollbackTag) (a b : Alp)
    → Run (Remembers u) a b
    → has_tag u a.rollback_tag_list ≡ true
    → has_tag u b.rollback_tag_list ≡ true
Run-has_tag u a _ nothing h = h
Run-has_tag u a _ (then {b} {c} e before ok step) h =
    Happens-has_tag u e b c ok step (Run-has_tag u a b before h)
