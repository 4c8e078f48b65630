-- ===== src/Tuic/Assoc/Touch.antt =====
-- src/tuic.rs (`AssocTable::touch`, `set_fake_ip`, `take_reclaimed_fake_ips`): the flows stay as they
-- are.
use mathlib.Core.Option
use mini_vpn.Flow.{FlowEntry, tuple_eq}
use mini_vpn.Tuic.Assoc.{AssocTable, touch}
use mini_vpn.Tuic.Assoc.Consistent.{IsConsistent, tuple_at}
use mini_vpn.Base.{ℕ, ◌≡◌, refl, sym, ◌∙◌, inl, inr, Option, none, some, arith, Bool-cases}
use mini_vpn.Base.Keys.{◌=?◌, nat_eq, bytes_eq, pair_eq}
use mini_vpn.Base.Map.{get, get-update, update-UniqueKeys, length-update}

pub tuple_at-touch : (a : AssocTable) (id now j : ℕ) → tuple_at (touch a id now) j ≡ tuple_at a j
unfolding touch tuple_at
tuple_at-touch a id now j =
    rw (get-update id j (λ (e : FlowEntry). record e { last_activity = now }) a.id_to_entry)
      (elim (Bool-cases (id =? j)) [
        | inl t ↦ rw t (same (get j a.id_to_entry))
        | inr f ↦ rw f refl
      ])
  where
    same :
        (o : Option FlowEntry)
        → Option.map
            (λ (e : FlowEntry). e.tuple)
            (Option.map (λ (e : FlowEntry). record e { last_activity = now }) o)
          ≡ Option.map (λ (e : FlowEntry). e.tuple) o
    same none = refl
    same (some e) = refl

pub touch-IsConsistent :
    (a : AssocTable) (id now : ℕ) → IsConsistent a → IsConsistent (touch a id now)
unfolding touch
touch-IsConsistent a id now c = record {
  to_entry = λ t j h. tuple_at-touch a id now j ∙ c.to_entry t j h;
  to_id = λ t j h. c.to_id t j (sym (tuple_at-touch a id now j) ∙ h);
  ids = λ t j h. c.ids t j (sym (tuple_at-touch a id now j) ∙ h);
  next = c.next;
  capped = c.capped;
  room = omega (
    arith,
    c.room,
    length-update id (λ (e : FlowEntry). record e { last_activity = now }) a.id_to_entry,
  );
  unique =
      update-UniqueKeys id (λ (e : FlowEntry). record e { last_activity = now }) a.id_to_entry
        c.unique;
}
