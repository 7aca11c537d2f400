-- ===== src/Outreach.antt =====
-- manager/autonomy.py (OutreachRegistry) with the contacts of manager/state_store.py: drafts of
-- messages to recipients outside, the record of what was sent, and the opt-out.
pub mod OptOut
use machine_manager.Base.{
  ℕ, ◌≡◌, Bool, true, false, not, ◌&&◌, ◌||◌, Option, none, some, List, [], ◌∷◌, ◌++◌,
  if◌then◌else◌,
}
use machine_manager.Base.Result.{Result, ok, err, value_error, blocked_error}
use machine_manager.Base.Text.{Text, text, text_eq, strip, lower, is_empty}
use machine_manager.Store.{Store, Contact}

-- The fields of `OperatingCharter` that the registry reads.
pub record Charter : Type 0 where
  pub allow_outreach : Bool
  pub honor_outreach_opt_out : Bool
  pub first_contact_disclosure : Text

-- `OutreachDraft`
pub record Draft : Type 0 where
  pub channel : Text
  pub recipient_hash : Text
  pub content : Text
  pub first_contact : Bool

unfoldable pub is_contact : Text → Text → Contact → Bool
is_contact channel hash c = text_eq c.channel channel && text_eq c.recipient_hash hash

unfoldable pub find_contact : Text → Text → List Contact → Option Contact
unfolding is_contact
find_contact channel hash [] = none
find_contact channel hash (c ∷ cs) =
    if is_contact channel hash c then some c else find_contact channel hash cs

-- `get_outreach_contact`
unfoldable pub get_outreach_contact : Text → Text → Store → Option Contact
unfolding find_contact
get_outreach_contact channel hash s = find_contact channel hash s.contacts

unfoldable pub put_contact : Contact → List Contact → List Contact
unfolding is_contact
put_contact new [] = new ∷ []
put_contact new (c ∷ cs) =
    if is_contact new.channel new.recipient_hash c then new ∷ cs else c ∷ put_contact new cs

-- `upsert_outreach_contact`: INSERT … ON CONFLICT(channel, recipient_hash) DO UPDATE
unfoldable pub upsert_outreach_contact : Contact → Store → Store
unfolding put_contact
upsert_outreach_contact new s = record s { contacts = put_contact new s.contacts }

abbrev pub do_not_contact : Text
do_not_contact = text "DO_NOT_CONTACT"

-- `existing.get("first_contacted_at")` and its like.
abbrev pub first_contact_of : Option Contact → Option Text
first_contact_of none = none
first_contact_of (some c) = c.first_contacted_at

abbrev last_contact_of : Option Contact → Option Text
last_contact_of none = none
last_contact_of (some c) = c.last_contacted_at

-- Python's truth of a string that may be None, and `value or default`.
abbrev is_truthy : Option Text → Bool
is_truthy none = false
is_truthy (some t) = not (is_empty t)

abbrev pub or_default : Option Text → Text → Text
or_default none d = d
or_default (some []) d = d
or_default (some (c ∷ cs)) d = c ∷ cs

abbrev opted_out : Option Contact → Bool
opted_out none = false
opted_out (some c) = text_eq c.state do_not_contact

-- `str(x).strip().lower()`
unfoldable pub normalized : Text → Text
normalized x = lower (strip x)

-- `sha256` gives the hexadecimal digest of a text; the registry's time stamps are its caller's.
module _ (sha256 : Text → Text) where
  unfoldable pub recipient_hash : Text → Text → Result Text
  unfolding normalized
  recipient_hash channel recipient =
      if is_empty (normalized channel) || is_empty (normalized recipient)
      then err value_error
      else ok (sha256 (normalized channel ++ 0 ∷ normalized recipient))

  -- The end of `prepare`, where the recipient has not opted out.
  unfoldable pub draft_for : Charter → Text → Text → Text → Bool → Result Draft
  unfolding normalized
  draft_for charter channel hash message first =
      if is_empty (strip message)
      then err value_error
      else ok (record {
        channel = normalized channel;
        recipient_hash = hash;
        content =
            if first
            then charter.first_contact_disclosure ++ 10 ∷ 10 ∷ strip message
            else strip message;
        first_contact = first;
      })

  -- `prepare` once the hash is known. The channel is looked up as it was given.
  unfoldable pub prepare_hashed : Charter → Text → Text → Result Text → Store → Result Draft
  unfolding draft_for get_outreach_contact
  prepare_hashed charter channel message (err e) s = err e
  prepare_hashed charter channel message (ok hash) s =
      let found = get_outreach_contact channel hash s in
      if charter.honor_outreach_opt_out && opted_out found
      then err blocked_error
      else draft_for charter channel hash message (not (is_truthy (first_contact_of found)))

  unfoldable pub prepare : Charter → Text → Text → Text → Store → Result Draft
  unfolding prepare_hashed recipient_hash
  prepare charter channel recipient message s =
      if not charter.allow_outreach
      then err blocked_error
      else prepare_hashed charter channel message (recipient_hash channel recipient) s

  -- The row that `record_sent` writes.
  unfoldable pub sent_contact : Draft → Text → Store → Contact
  unfolding get_outreach_contact
  sent_contact draft stamp s = record {
    channel = draft.channel;
    recipient_hash = draft.recipient_hash;
    state = text "ACTIVE";
    first_contacted_at = some (
        or_default (first_contact_of (get_outreach_contact draft.channel draft.recipient_hash s))
          stamp);
    last_contacted_at = some stamp;
    updated = stamp;
  }

  unfoldable pub record_sent : Draft → Text → Store → Store
  unfolding upsert_outreach_contact sent_contact
  record_sent draft stamp s = upsert_outreach_contact (sent_contact draft stamp s) s

  -- The row that `record_opt_out` writes.
  unfoldable pub opted_contact : Text → Text → Text → Store → Contact
  unfolding get_outreach_contact normalized
  opted_contact channel hash stamp s =
      let existing = get_outreach_contact (normalized channel) hash s in
      record {
        channel = normalized channel;
        recipient_hash = hash;
        state = do_not_contact;
        first_contacted_at = first_contact_of existing;
        last_contacted_at = last_contact_of existing;
        updated = stamp;
      }

  unfoldable pub opt_out_hashed : Text → Text → Result Text → Store → Result Store
  unfolding upsert_outreach_contact opted_contact
  opt_out_hashed channel stamp (err e) s = err e
  opt_out_hashed channel stamp (ok hash) s =
      ok (upsert_outreach_contact (opted_contact channel hash stamp s) s)

  unfoldable pub record_opt_out : Text → Text → Text → Store → Result Store
  unfolding opt_out_hashed recipient_hash
  record_opt_out channel recipient stamp s =
      opt_out_hashed channel stamp (recipient_hash channel recipient) s
