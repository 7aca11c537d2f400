-- ===== src/Examples/Contacts.antt =====
-- A concrete recipient of outreach.
use machine_manager.Base.{◌≡◌, refl, true, false, [], ◌∷◌, none, String, ◌++◌}
use machine_manager.Base.Result.{ok, err, blocked_error}
use machine_manager.Base.Text.{Text, text, text_eq, strip, lower}
use machine_manager.Store.{Store}
use machine_manager.Outreach.{
  Charter, Draft, normalized, recipient_hash, prepare, draft_for, record_sent, record_opt_out,
  opt_out_hashed, opted_contact, upsert_outreach_contact, get_outreach_contact, find_contact,
}
use machine_manager.Outreach.OptOut.{opt_out_blocks, opt_out_is_missed, sent_lifts_opt_out}

abbrev charter : Charter
charter = record {
  allow_outreach = true;
  honor_outreach_opt_out = true;
  first_contact_disclosure = text "I am an AI.";
}

-- A digest that keeps the whole text.
abbrev digest : Text → Text
digest t = t

abbrev empty_store : Store
empty_store = record { tasks = []; events = []; event_retention = 1; meta = []; contacts = [] }

abbrev hash_of : String → Text
hash_of channel = digest (lower (strip (text channel)) ++ 0 ∷ lower (strip (text "A@b")))

-- The store after the recipient has opted out.
abbrev opted_store : String → Store
opted_store channel =
    upsert_outreach_contact
      (opted_contact digest (text channel) (hash_of channel) (text "t1") empty_store) empty_store

opted :
    record_opt_out digest (text "email") (text "A@b") (text "t1") empty_store
    ≡ ok (opted_store "email")
unfolding record_opt_out recipient_hash opt_out_hashed normalized text strip lower
opted = refl

opted_other :
    record_opt_out digest (text "Email") (text "A@b") (text "t1") empty_store
    ≡ ok (opted_store "Email")
unfolding record_opt_out recipient_hash opt_out_hashed normalized text strip lower
opted_other = refl

same_channel : text "email" ≡ normalized (text "email")
unfolding normalized text strip lower
same_channel = refl

same_recipient : normalized (text " a@B") ≡ normalized (text "A@b")
unfolding normalized text strip lower
same_recipient = refl

opt_out_blocks_example :
    prepare digest charter (text "email") (text " a@B") (text "hello") (opted_store "email")
    ≡ err blocked_error
opt_out_blocks_example =
    opt_out_blocks digest charter (text "email") (text "A@b") (text " a@B") (text "t1")
      (text "hello") empty_store (opted_store "email") refl same_channel same_recipient opted

other_spelling : text_eq (normalized (text "Email")) (text "Email") ≡ false
unfolding normalized text strip lower text_eq
other_spelling = refl

hash_is : recipient_hash digest (text "Email") (text "A@b") ≡ ok (hash_of "Email")
unfolding recipient_hash normalized text strip lower
hash_is = refl

unseen : get_outreach_contact (text "Email") (hash_of "Email") empty_store ≡ none
unfolding get_outreach_contact find_contact
unseen = refl

opt_out_is_missed_example :
    prepare digest charter (text "Email") (text "A@b") (text "hello") (opted_store "Email")
    ≡ draft_for digest charter (text "Email") (hash_of "Email") (text "hello") true
opt_out_is_missed_example =
    opt_out_is_missed digest charter (text "Email") (text "A@b") (hash_of "Email") (text "t1")
      (text "hello") empty_store (opted_store "Email") refl other_spelling hash_is unseen
      opted_other

abbrev draft : Draft
draft = record {
  channel = text "email";
  recipient_hash = hash_of "email";
  content = text "hello";
  first_contact = false;
}

hash_known : recipient_hash digest (text "email") (text "A@b") ≡ ok (hash_of "email")
unfolding recipient_hash normalized text strip lower
hash_known = refl

sent_lifts_opt_out_example :
    prepare digest charter
      (text "email")
      (text "A@b")
      (text "again")
      (record_sent digest draft (116 ∷ []) (opted_store "email"))
    ≡ draft_for digest charter (text "email") (hash_of "email") (text "again") false
sent_lifts_opt_out_example =
    sent_lifts_opt_out digest charter (text "email") (text "A@b") (hash_of "email") (text "again")
      116 [] draft (opted_store "email") refl hash_known refl refl
