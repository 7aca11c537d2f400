-- ===== src/Outreach/OptOut.antt =====
-- What the opt-out of a recipient and the record of a sent message do to later drafts.
use machine_manager.Base.{
  ℕ, ◌≡◌, refl, sym, ap, ◌∙◌, inl, inr, Bool, true, false, ◌&&◌, Option, none, some, List, [], ◌∷◌,
  if◌then◌else◌, Bool-cases, arith, subst,
}
use machine_manager.Base.Result.{Result, ok, err, blocked_error, ok_inj}
use machine_manager.Base.Text.{Text, text, text_eq, text_eq_refl, text_eq→eq, is_empty}
use machine_manager.Store.{Store, Contact}
use machine_manager.Outreach.{
  Charter, Draft, is_contact, find_contact, get_outreach_contact, put_contact,
  upsert_outreach_contact, do_not_contact, normalized, recipient_hash, draft_for, prepare_hashed,
  prepare, record_sent, opt_out_hashed, record_opt_out, opted_out, opted_contact, sent_contact,
  or_default, first_contact_of,
}

both_true : (a b : Bool) → a && b ≡ true → (a ≡ true) × (b ≡ true)
both_true a b h = (ground arith, ground arith)

is_contact-same :
    (new : Contact) (channel hash : Text) (c : Contact)
    → is_contact new.channel new.recipient_hash c ≡ true
    → is_contact channel hash c ≡ is_contact channel hash new
unfolding is_contact
is_contact-same new channel hash c e =
    let both =
      both_true (text_eq c.channel new.channel) (text_eq c.recipient_hash new.recipient_hash) e in
    rw (text_eq→eq c.channel new.channel both.0)
      (rw (text_eq→eq c.recipient_hash new.recipient_hash both.1) refl)

-- A contact is found after it was written, and the others are as before.
find_contact-put_contact :
    (new : Contact) (cs : List Contact)
    → find_contact new.channel new.recipient_hash (put_contact new cs) ≡ some new
unfolding find_contact put_contact is_contact
find_contact-put_contact new [] =
    rw (text_eq_refl new.channel) (rw (text_eq_refl new.recipient_hash) refl)
find_contact-put_contact new (c ∷ cs) =
    elim (Bool-cases (is_contact new.channel new.recipient_hash c)) [
      | inl e ↦ rw e (rw (text_eq_refl new.channel) (rw (text_eq_refl new.recipient_hash) refl))
      | inr e ↦ rw e (rw e (find_contact-put_contact new cs))
    ]

find_contact-put_other :
    (new : Contact) (channel hash : Text) (cs : List Contact)
    → is_contact channel hash new ≡ false
    → find_contact channel hash (put_contact new cs) ≡ find_contact channel hash cs
unfolding find_contact put_contact is_contact
find_contact-put_other new channel hash [] h = rw h refl
find_contact-put_other new channel hash (c ∷ cs) h =
    elim (Bool-cases (is_contact new.channel new.recipient_hash c)) [
      | inl e ↦ rw e (rw h (rw (is_contact-same new channel hash c e ∙ h) refl))
      | inr e ↦ rw e (
          ap (λ x. if is_contact channel hash c then some c else x)
            (find_contact-put_other new channel hash cs h))
    ]

get-upsert :
    (new : Contact) (s : Store)
    → get_outreach_contact new.channel new.recipient_hash (upsert_outreach_contact new s) ≡ some new
unfolding get_outreach_contact upsert_outreach_contact
get-upsert new s = find_contact-put_contact new s.contacts

get-upsert_other :
    (new : Contact) (channel hash : Text) (s : Store)
    → is_contact channel hash new ≡ false
    → get_outreach_contact channel hash (upsert_outreach_contact new s)
      ≡ get_outreach_contact channel hash s
unfolding get_outreach_contact upsert_outreach_contact
get-upsert_other new channel hash s h = find_contact-put_other new channel hash s.contacts h

active_not_opted : text_eq (text "ACTIVE") do_not_contact ≡ false
unfolding text_eq text
active_not_opted = refl

or_default_given : (o : Option Text) (c : ℕ) (cs : Text) → is_empty (or_default o (c ∷ cs)) ≡ false
or_default_given none c cs = refl
or_default_given (some []) c cs = refl
or_default_given (some (d ∷ ds)) c cs = refl

module _ (sha256 : Text → Text) (charter : Charter) where
  recipient_hash-spelling :
      (channel recipient recipient' : Text)
      → normalized recipient' ≡ normalized recipient
      → recipient_hash sha256 channel recipient' ≡ recipient_hash sha256 channel recipient
  unfolding recipient_hash
  recipient_hash-spelling channel recipient recipient' h = rw h refl

  blocked_hashed :
      (channel stamp message : Text) (r : Result Text) (s t : Store)
      → charter.honor_outreach_opt_out ≡ true
      → channel ≡ normalized channel
      → opt_out_hashed sha256 channel stamp r s ≡ ok t
      → prepare_hashed sha256 charter channel message r t ≡ err blocked_error
  unfolding opt_out_hashed prepare_hashed opted_contact
  blocked_hashed channel stamp message (err e) s t honor same done = ground arith
  blocked_hashed channel stamp message (ok hash) s t honor same done =
      let new = opted_contact sha256 channel hash stamp s in
      let out : opted_out (get_outreach_contact channel hash t) ≡ true =
        subst (λ u. opted_out (get_outreach_contact channel hash u) ≡ true) (ok_inj done)
          (ap opted_out (
              subst (λ x. get_outreach_contact x hash (upsert_outreach_contact new s) ≡ some new)
                (sym same) (get-upsert new s))
            ∙ text_eq_refl do_not_contact) in
      rw honor (rw out refl)

  -- After an opt-out, a draft for the recipient is refused, in any spelling of the recipient that
  -- differs in case and outer blanks only, if the channel is given in its normalized spelling and
  -- the charter honours opt-outs.
  pub opt_out_blocks :
      (channel recipient recipient' stamp message : Text) (s t : Store)
      → charter.honor_outreach_opt_out ≡ true
      → channel ≡ normalized channel
      → normalized recipient' ≡ normalized recipient
      → record_opt_out sha256 channel recipient stamp s ≡ ok t
      → prepare sha256 charter channel recipient' message t ≡ err blocked_error
  unfolding prepare record_opt_out
  opt_out_blocks channel recipient recipient' stamp message s t honor same spelled done =
      elim (Bool-cases charter.allow_outreach) [
        | inl e ↦ rw e (
            rw (recipient_hash-spelling channel recipient recipient' spelled) (
              blocked_hashed channel stamp message (recipient_hash sha256 channel recipient) s t
                honor same done))
        | inr e ↦ rw e refl
      ]

  -- After an opt-out under a channel that is not given in its normalized spelling, a draft for the
  -- same channel and recipient is prepared as if there had been no opt-out, if the charter allows
  -- outreach and no row is stored under that spelling.
  pub opt_out_is_missed :
      (channel recipient hash stamp message : Text) (s t : Store)
      → charter.allow_outreach ≡ true
      → text_eq (normalized channel) channel ≡ false
      → recipient_hash sha256 channel recipient ≡ ok hash
      → get_outreach_contact channel hash s ≡ none
      → record_opt_out sha256 channel recipient stamp s ≡ ok t
      → prepare sha256 charter channel recipient message t
        ≡ draft_for sha256 charter channel hash message true
  unfolding prepare prepare_hashed record_opt_out opt_out_hashed opted_contact is_contact
  opt_out_is_missed channel recipient hash stamp message s t allow other known unseen done =
      let new = opted_contact sha256 channel hash stamp s in
      let stored : upsert_outreach_contact new s ≡ t =
        ok_inj (sym (ap (λ r. opt_out_hashed sha256 channel stamp r s) known) ∙ done) in
      let missed : get_outreach_contact channel hash t ≡ none =
        subst (λ u. get_outreach_contact channel hash u ≡ none) stored
          (get-upsert_other new channel hash s (rw other refl) ∙ unseen) in
      rw allow (rw known (rw missed (ground arith)))

  -- Recording a message as sent makes its recipient contactable, whatever the store held before, an
  -- opt-out included: the next draft is prepared, without the disclosure of a first contact.
  pub sent_lifts_opt_out :
      (channel recipient hash message : Text) (c : ℕ) (stamp : Text) (draft : Draft) (s : Store)
      → charter.allow_outreach ≡ true
      → recipient_hash sha256 channel recipient ≡ ok hash
      → draft.channel ≡ channel
      → draft.recipient_hash ≡ hash
      → prepare sha256 charter channel recipient message (record_sent sha256 draft (c ∷ stamp) s)
        ≡ draft_for sha256 charter channel hash message false
  unfolding prepare prepare_hashed record_sent sent_contact
  sent_lifts_opt_out channel recipient hash message c stamp draft s allow known at to =
      let new = sent_contact sha256 draft (c ∷ stamp) s in
      let found : get_outreach_contact channel hash (upsert_outreach_contact new s) ≡ some new =
        subst (λ x. get_outreach_contact x hash (upsert_outreach_contact new s) ≡ some new) at
          (subst
            (λ y. get_outreach_contact draft.channel y (upsert_outreach_contact new s) ≡ some new)
            to (get-upsert new s)) in
      let given =
        or_default_given
          (first_contact_of (get_outreach_contact draft.channel draft.recipient_hash s)) c stamp in
      rw allow (rw known (rw found (rw active_not_opted (rw given (ground arith)))))
