-- ===== src/Routes/Folding.antt =====
-- crates/fast-socket-xdp-rs/src/route.rs: the slots that `rebuild_egress_index_v4` folds for an interface.
use fast_socket_rs.Prelude.{
  ℕ, zero, suc, ◌+◌, ◌-◌, ◌^◌, ◌≤◌, ◌<◌, ◌≡◌, refl, sym, subst, ap, ◌∙◌, true, false, some, List,
  [], ◌∷◌, ◌++◌, length, length-append, get_elem?, get_elem?-append_left, get_elem?-append_last,
  lt_of_get_elem?, ◌==◌, arith, Bool-cases, Option-cases, none≢some, inl, inr,
}
use fast_socket_rs.Prelude.Results.{eq_of_some}
use fast_socket_rs.Prelude.Words.{as_u32}
use fast_socket_rs.Prelude.Maps.{lookup, insert}
use fast_socket_rs.Egress.{XdpResolvedEgress}
use fast_socket_rs.Routes.{Ipv4Route, InterfaceInfo, RouteSnapshot, egress_none, egress_on_link}
use fast_socket_rs.Routes.Lookup.{
  same_resolved, Slot, skipped, on_link, gateway_slot, slot_for, Folded, intern, fold_slot,
  fold_routes, open_slot,
}
use fast_socket_rs.Routes.Equality.{same_resolved_eq}

-- Each entry of the map is the index of its egress.
abbrev pub Indexed : List XdpResolvedEgress → List (XdpResolvedEgress × ℕ) → Type 0
Indexed egresses [] = Unit
Indexed egresses ((resolved, n) ∷ dedup) =
    (get_elem? egresses n ≡ some resolved) × Indexed egresses dedup

Indexed-lookup :
    (egresses : List XdpResolvedEgress) (dedup : List (XdpResolvedEgress × ℕ))
    (resolved : XdpResolvedEgress) (n : ℕ)
    → Indexed egresses dedup
    → lookup same_resolved resolved dedup ≡ some n
    → get_elem? egresses n ≡ some resolved
unfolding lookup
Indexed-lookup egresses [] resolved n i h = cc
Indexed-lookup egresses ((own, m) ∷ dedup) resolved n (at_m, i) h =
    elim (Bool-cases (same_resolved own resolved)) [
      | inl same ↦
          let e : m ≡ n = eq_of_some (rw same at h) in
          subst (λ k. get_elem? egresses k ≡ some resolved) e
            (at_m ∙ ap some (same_resolved_eq own resolved same))
      | inr other ↦ Indexed-lookup egresses dedup resolved n i (rw other at h)
    ]

Indexed-insert :
    (egresses : List XdpResolvedEgress) (dedup : List (XdpResolvedEgress × ℕ))
    (resolved : XdpResolvedEgress) (n : ℕ)
    → get_elem? egresses n ≡ some resolved
    → Indexed egresses dedup
    → Indexed egresses (insert same_resolved resolved n dedup)
unfolding insert
Indexed-insert egresses [] resolved n at_n i = (at_n, tt)
Indexed-insert egresses ((own, m) ∷ dedup) resolved n at_n (at_m, i) =
    elim (Bool-cases (same_resolved own resolved)) [
      | inl same ↦ rw same (at_n ∙ ap some (sym (same_resolved_eq own resolved same)), i)
      | inr other ↦ rw other (at_m, Indexed-insert egresses dedup resolved n at_n i)
    ]

-- Later egresses come behind the earlier ones.
unfoldable pub Extends : List XdpResolvedEgress → List XdpResolvedEgress → Type 0
Extends before after =
    (n : ℕ) (resolved : XdpResolvedEgress)
    → get_elem? before n ≡ some resolved
    → get_elem? after n ≡ some resolved

Indexed-Extends :
    (before after : List XdpResolvedEgress) (dedup : List (XdpResolvedEgress × ℕ))
    → Extends before after
    → Indexed before dedup
    → Indexed after dedup
unfolding Extends
Indexed-Extends before after [] more i = tt
Indexed-Extends before after ((resolved, n) ∷ dedup) more (at_n, i) =
    (more n resolved at_n, Indexed-Extends before after dedup more i)

-- A slot that stands for what it should among the egresses, and among all that extend them.
record Slotted (slot : ℕ) (meant : Slot) (f f' : Folded) : Type 0 where
  indexed : Indexed f'.egresses f'.dedup
  grown : length f'.egresses ≤ length f.egresses + 1
  extends : Extends f.egresses f'.egresses
  opened :
      (after : List XdpResolvedEgress) → Extends f'.egresses after → open_slot after slot ≡ meant
  silent : f'.egressable ≡ false → (meant ≡ skipped) × (f.egressable ≡ false)

open_slot_at :
    (egresses : List XdpResolvedEgress) (slot : ℕ) (resolved : XdpResolvedEgress)
    → slot < 2 ^ 32 - 2
    → get_elem? egresses slot ≡ some resolved
    → open_slot egresses slot ≡ gateway_slot resolved
unfolding open_slot
open_slot_at egresses slot resolved small h =
    let not_none : (slot == egress_none) ≡ false = ground arith in
    let not_link : (slot == egress_on_link) ≡ false = ground arith in
    rw (not_none, not_link, h) refl

interned_known :
    (resolved : XdpResolvedEgress) (f : Folded) (slot : ℕ)
    → Indexed f.egresses f.dedup
    → length f.egresses < 2 ^ 32 - 2
    → lookup same_resolved resolved f.dedup ≡ some slot
    → Slotted slot (gateway_slot resolved) f (record f { egressable = true })
unfolding Extends
interned_known resolved f slot i small known =
    let at_slot = Indexed-lookup f.egresses f.dedup resolved slot i known in
    let inside = lt_of_get_elem? f.egresses slot at_slot in
    record {
      indexed = i;
      grown = omega arith;
      extends = λ n r h. h;
      opened =
          λ after more. open_slot_at after slot resolved (omega arith) (more slot resolved at_slot);
      silent = λ h. cc;
    }

abbrev with_new : XdpResolvedEgress → Folded → Folded
with_new resolved f = record {
  egresses = f.egresses ++ (resolved ∷ []);
  dedup = insert same_resolved resolved (as_u32 (length f.egresses)) f.dedup;
  egressable = true;
}

interned_new :
    (resolved : XdpResolvedEgress) (f : Folded)
    → Indexed f.egresses f.dedup
    → length f.egresses < 2 ^ 32 - 2
    → Slotted (as_u32 (length f.egresses)) (gateway_slot resolved) f (with_new resolved f)
unfolding Extends
interned_new resolved f i small =
    let n = as_u32 (length f.egresses) in
    let grown_by = length-append f.egresses (resolved ∷ []) in
    let more : Extends f.egresses (f.egresses ++ (resolved ∷ [])) = λ m r h.
      get_elem?-append_left f.egresses (resolved ∷ []) m (lt_of_get_elem? f.egresses m h) ∙ h in
    let at_n = get_elem?-append_last f.egresses resolved n (omega arith) in
    record {
      indexed =
          Indexed-insert (f.egresses ++ (resolved ∷ [])) f.dedup resolved n at_n
            (Indexed-Extends f.egresses (f.egresses ++ (resolved ∷ [])) f.dedup more i);
      grown = omega (arith, grown_by);
      extends = more;
      opened = λ after later. open_slot_at after n resolved (omega arith) (later n resolved at_n);
      silent = λ h. cc;
    }

intern-Slotted :
    (resolved : XdpResolvedEgress) (f : Folded)
    → Indexed f.egresses f.dedup
    → length f.egresses < 2 ^ 32 - 2
    → let (slot, f') = intern resolved f in Slotted slot (gateway_slot resolved) f f'
unfolding intern Extends
intern-Slotted resolved f i small = elim (Option-cases (lookup same_resolved resolved f.dedup)) [
  | inl new_egress ↦ rw (new_egress, intern) (interned_new resolved f i small)
  | inr (slot, known) ↦ rw (known, intern) (interned_known resolved f slot i small known)
]

fold_slot-Slotted :
    (meant : Slot) (f : Folded)
    → Indexed f.egresses f.dedup
    → length f.egresses < 2 ^ 32 - 2
    → let (slot, f') = fold_slot meant f in Slotted slot meant f f'
unfolding fold_slot Extends
fold_slot-Slotted skipped f i small = record {
  indexed = i;
  grown = omega arith;
  extends = λ n r h. h;
  opened = λ after more. unfold open_slot in refl;
  silent = λ h. (refl, h);
}
fold_slot-Slotted on_link f i small = record {
  indexed = i;
  grown = omega arith;
  extends = λ n r h. h;
  opened = λ after more. unfold open_slot in refl;
  silent = λ h. cc;
}
fold_slot-Slotted (gateway_slot resolved) f i small = intern-Slotted resolved f i small

-- The slots of a list of routes stand for what each route means for the interface.
pub record Slots (s : RouteSnapshot) (interface : InterfaceInfo) (routes : List Ipv4Route)
    (f : Folded) (slots : List ℕ) (f' : Folded) : Type 0 where
  pub extends_all : Extends f.egresses f'.egresses
  pub same_length : length slots ≡ length routes
  pub opened_all :
      (after : List XdpResolvedEgress) (j : ℕ) (route : Ipv4Route)
      → Extends f'.egresses after
      → get_elem? routes j ≡ some route
      → (slot : ℕ) × (get_elem? slots j ≡ some slot)
        × (open_slot after slot ≡ slot_for s interface route)
  pub all_skipped :
      (j : ℕ) (route : Ipv4Route)
      → f'.egressable ≡ false
      → get_elem? routes j ≡ some route
      → slot_for s interface route ≡ skipped
  pub none_before : f'.egressable ≡ false → f.egressable ≡ false

module _ (s : RouteSnapshot) (interface : InterfaceInfo) where
  abbrev pub Opened : List XdpResolvedEgress → List Ipv4Route → List ℕ → Type 0
  Opened after routes slots =
      (j : ℕ) (route : Ipv4Route)
      → get_elem? routes j ≡ some route
      → (slot : ℕ) × (get_elem? slots j ≡ some slot)
        × (open_slot after slot ≡ slot_for s interface route)

  Opened-cons :
      (after : List XdpResolvedEgress) (route : Ipv4Route) (routes : List Ipv4Route) (slot : ℕ)
      (slots : List ℕ)
      → open_slot after slot ≡ slot_for s interface route
      → Opened after routes slots
      → Opened after (route ∷ routes) (slot ∷ slots)
  Opened-cons after route routes slot slots first rest zero own h =
      (slot, refl, first ∙ ap (slot_for s interface) (eq_of_some h))
  Opened-cons after route routes slot slots first rest (suc j) own h = rest j own h

  abbrev pub AllSkipped : List Ipv4Route → Type 0
  AllSkipped routes =
      (j : ℕ) (route : Ipv4Route)
      → get_elem? routes j ≡ some route
      → slot_for s interface route ≡ skipped

  skipped_cons :
      (route : Ipv4Route) (routes : List Ipv4Route)
      → slot_for s interface route ≡ skipped
      → AllSkipped routes
      → AllSkipped (route ∷ routes)
  skipped_cons route routes first rest zero own h =
      sym (ap (slot_for s interface) (eq_of_some h)) ∙ first
  skipped_cons route routes first rest (suc j) own h = rest j own h

  pub fold_routes-Slots :
      (routes : List Ipv4Route) (f : Folded)
      → Indexed f.egresses f.dedup
      → length f.egresses + length routes < 2 ^ 32 - 2
      → let (slots, f') = fold_routes s interface routes f in Slots s interface routes f slots f'
  unfolding fold_routes Extends
  fold_routes-Slots [] f i small = record {
    extends_all = λ n r h. h;
    same_length = refl;
    opened_all = λ after j route more h. absurd (none≢some h);
    all_skipped = λ j route quiet h. absurd (none≢some h);
    none_before = λ h. h;
  }
  fold_routes-Slots (route ∷ routes) f i small =
      let meant = slot_for s interface route in
      let one : Slotted (fold_slot meant f).0 meant f (fold_slot meant f).1 =
        fold_slot-Slotted meant f i (omega arith) in
      let rest =
        fold_routes-Slots routes (fold_slot meant f).1 one.indexed (omega (arith, one.grown)) in
      record {
        extends_all = λ n r h. rest.extends_all n r (one.extends n r h);
        same_length = ap suc rest.same_length;
        opened_all = λ after j own more h.
            Opened-cons after route routes (fold_slot meant f).0
              (fold_routes s interface routes (fold_slot meant f).1).0
              (one.opened after (λ n r k. more n r (rest.extends_all n r k)))
              (λ k r at_k. rest.opened_all after k r more at_k) j own h;
        all_skipped = λ j own quiet h.
            skipped_cons route routes (one.silent (rest.none_before quiet)).0
              (λ k r at_k. rest.all_skipped k r quiet at_k) j own h;
        none_before = λ h. (one.silent (rest.none_before h)).1;
      }
