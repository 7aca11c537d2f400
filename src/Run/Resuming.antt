-- ===== src/Run/Resuming.antt =====
-- The operator's acknowledgement and the marker of the host's boot, in manager/run.py.
use machine_manager.Base.{
  ◌≡◌, refl, ap, sym, subst, ◌∙◌, Bool, true, false, not, ◌||◌, Option, none, some, [], ◌∷◌,
  if◌then◌else◌, if_both, arith,
}
use machine_manager.Base.Json.{Json, Fields, string}
use machine_manager.Base.Text.{Text, text, text_eq, text_eq_refl, is_empty, upper, strip}
use machine_manager.Store.{Store, MetaValue, plain, set_meta, get_meta, find_meta-put_meta}
use machine_manager.Store.Snapshots.{text_at}
use machine_manager.Workstreams.{is_identifier}
use machine_manager.Run.{
  resume_key, meta_is_set, consume_resume, unconsumed, pending_operator_resume,
  update_host_boot_marker, differs,
}

get_meta-set_meta :
    (key : Text) (value : MetaValue) (s : Store) → get_meta key (set_meta key value s) ≡ some value
unfolding get_meta set_meta
get_meta-set_meta key value s = find_meta-put_meta key value s.meta

-- A reboot is reported once: the next time, with the marker unchanged, none is reported.
pub reboot_is_reported_once :
    (marker : Option Text) (store : Store)
    → (update_host_boot_marker marker (update_host_boot_marker marker store).1).0 ≡ false
unfolding update_host_boot_marker
reboot_is_reported_once none store = refl
reboot_is_reported_once (some []) store = refl
reboot_is_reported_once (some (c ∷ marker)) store =
    ap (λ o. differs o (c ∷ marker))
      (get_meta-set_meta (text "host_boot_marker") (plain (c ∷ marker)) store)
    ∙ ap not (text_eq_refl (c ∷ marker))

module _ (repr : Json → Text) where
  -- What is pending is an identifier that is not marked.
  unconsumed_id :
      (request requested job id : Text) (store : Store)
      → unconsumed repr request requested job store ≡ some id
      → request ≡ id
  unconsumed_id request requested job id store h = ground arith

  marked_is_not_pending :
      (request requested job : Text) (store : Store)
      → meta_is_set (get_meta (resume_key request) store) ≡ true
      → unconsumed repr request requested job store ≡ none
  marked_is_not_pending request requested job store marked =
      if_both (λ o. o ≡ none) (not (is_identifier request) || not (text_eq requested job))
        (λ _. refl) (λ _. rw marked refl)

  some_branch :
      (b : Bool) (o : Option Text) (id : Text) → (if b then none else o) ≡ some id → o ≡ some id
  some_branch b o id h = ground arith

  -- An acknowledgement is good for one resumption: once it is marked as consumed, at a time that is
  -- not blank, it is pending no more, for no job and in no state.
  pub resume_is_consumed_once :
      (raw : Option Fields) (job job' state state' now id : Text) (store : Store)
      → pending_operator_resume repr raw job state store ≡ some id
      → is_empty now ≡ false
      → pending_operator_resume repr raw job' state' (consume_resume id now store) ≡ none
  unfolding pending_operator_resume consume_resume
  resume_is_consumed_once none job job' state state' now id store h k = refl
  resume_is_consumed_once (some raw) job job' state state' now id store h k =
      let asked = strip (text_at repr (text "id") (string []) raw) in
      let same : asked ≡ id =
        unconsumed_id asked (strip (text_at repr (text "job_id") (string job) raw)) job id store
          (some_branch _ _ id h) in
      let marked : meta_is_set (get_meta (resume_key id) (consume_resume id now store)) ≡ true =
        ap meta_is_set (get_meta-set_meta (resume_key id) (plain now) store) ∙ ap not k in
      let requested = strip (text_at repr (text "job_id") (string job') raw) in
      if_both (λ o. o ≡ none) (not (text_eq (upper state') (text "ESCALATED"))) (λ _. refl)
        (λ _.
          subst (λ q. unconsumed repr q requested job' (consume_resume id now store) ≡ none)
            (sym same)
            (marked_is_not_pending id requested job' (consume_resume id now store) marked))
