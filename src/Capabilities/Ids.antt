-- ===== src/Capabilities/Ids.antt =====
-- What a registry has under an id, whatever is registered or switched after.
use machine_manager.Base.{
  ◌≡◌, refl, Bool, true, Option, none, some, List, [], ◌∷◌, inl, inr, Bool-cases, if_both, some_inj,
}
use machine_manager.Base.Assoc.{select, upsert, select-upsert}
use machine_manager.Base.Result.{Result}
use machine_manager.Base.Text.{Text, text_eq, text_eq→eq, strip, is_empty}
use machine_manager.Capabilities.{
  Capability, Capabilities, add_unless_there, register, switch, set_enabled,
}

-- A call of a method of the registry.
pub data Call : Type 0 where
  registers : Text → Text → Bool → Call
  switches : Text → Bool → Call

abbrev pub call : Call → Capabilities → Capabilities
call (registers id description enabled) cs = (register id description enabled cs).1
call (switches id enabled) cs = (set_enabled id enabled cs).1

abbrev pub calls_of : List Call → Capabilities → Capabilities
calls_of [] cs = cs
calls_of (c ∷ calls) cs = calls_of calls (call c cs)

abbrev pub description_of : Option Capability → Option Text
description_of none = none
description_of (some c) = some c.description

-- The description under an id, if there is one.
abbrev pub described : Text → Capabilities → Option Text
described id cs = description_of (select id cs)

-- A write that brings the description that the id has changes no description.
described-upsert :
    (key id : Text) (new : Capability) (cs : Capabilities) (d : Text)
    → (text_eq key id ≡ true → new.description ≡ d)
    → described id cs ≡ some d
    → described id (upsert key new cs) ≡ some d
described-upsert key id new cs d same h = elim (Bool-cases (text_eq key id)) [
  | inl e ↦ rw (select-upsert key id new cs, e, same e) refl
  | inr e ↦ rw (select-upsert key id new cs, e) h
]

add_unless_there_keeps :
    (found : Option Capability) (key description id : Text) (b : Bool) (cs : Capabilities)
    (d : Text)
    → select key cs ≡ found
    → described id cs ≡ some d
    → described id (add_unless_there found key description b cs).1 ≡ some d
unfolding add_unless_there
add_unless_there_keeps (some c) key description id b cs d e h = h
add_unless_there_keeps none key description id b cs d e h =
    described-upsert key id _ cs d
      (λ same.
        let missing : select id cs ≡ none = rw (← text_eq→eq key id same) e in cc (rw missing at h))
      h

switch_keeps :
    (found : Option Capability) (key id : Text) (b : Bool) (cs : Capabilities) (d : Text)
    → select key cs ≡ found
    → described id cs ≡ some d
    → described id (switch found key b cs).1 ≡ some d
unfolding switch
switch_keeps none key id b cs d e h = h
switch_keeps (some current) key id b cs d e h =
    described-upsert key id _ cs d
      (λ same.
        let there : select id cs ≡ some current = rw (← text_eq→eq key id same) e in
        some_inj (rw there at h))
      h

call_keeps :
    (c : Call) (id : Text) (cs : Capabilities) (d : Text)
    → described id cs ≡ some d
    → described id (call c cs) ≡ some d
unfolding register set_enabled
call_keeps (registers key description b) id cs d h =
    if_both {A = Result (Unit {0}) × Capabilities} (λ r. described id r.1 ≡ some d)
      (is_empty (strip key)) (λ _. h)
      (λ _. add_unless_there_keeps (select (strip key) cs) (strip key) description id b cs d refl h)
call_keeps (switches key b) id cs d h = switch_keeps (select key cs) key id b cs d refl h

-- A capability that is registered stays registered with its description, whatever is registered
-- and switched after, with whatever descriptions: a second registration of its id changes nothing
-- of it, and no call takes it away.
pub registration_is_kept :
    (calls : List Call) (id : Text) (cs : Capabilities) (d : Text)
    → described id cs ≡ some d
    → described id (calls_of calls cs) ≡ some d
registration_is_kept [] id cs d h = h
registration_is_kept (c ∷ calls) id cs d h =
    registration_is_kept calls id (call c cs) d (call_keeps c id cs d h)
