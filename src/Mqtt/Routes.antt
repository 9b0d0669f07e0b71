-- ===== src/Mqtt/Routes.antt =====
-- What a client that is asked one request after another calls for each topic.
use ocpp_simulator.Base.{
  ◌≡◌, refl, String, ◌==◌, eq_iff, List, [], ◌∷◌, ◌++◌, none, some, map, arith, Bool-cases, inl,
  inr,
}
use ocpp_simulator.Base.Assoc.{Assoc, lookup, insert, remove, lookup-insert, lookup-remove, Keyed}
use ocpp_simulator.Mqtt.{Request, ask, withdraw, ask_for}

module _ {H : Type 0} where
  -- One request, and any, on what a client that fulfils them calls for each topic.
  abbrev pub asked : Request H → Assoc H → Assoc H
  asked (ask topic handler) m = insert topic handler m
  asked (withdraw topic) m = remove topic m
  asked _ m = m

  unfoldable pub routes : List (Request H) → Assoc H → Assoc H
  routes [] m = m
  routes (r ∷ rs) m = routes rs (asked r m)

  pub routes-append :
      (rs more : List (Request H)) (m : Assoc H) → routes (rs ++ more) m ≡ routes more (routes rs m)
  unfolding routes
  routes-append [] more m = refl
  routes-append (r ∷ rs) more m = routes-append rs more (asked r m)

  -- Go visits each entry of a map once.
  pub record IsVisit (visit : Assoc H → Assoc H) : Type 0 where
    pub keyed : (m : Assoc H) → Keyed m → Keyed (visit m)
    pub same : (topic : String) (m : Assoc H) → Keyed m → lookup topic (visit m) ≡ lookup topic m

  -- Asking for each entry of a table leaves the other topics as they were.
  pub routes-miss :
      (table m : Assoc H) (topic : String)
      → lookup topic table ≡ none
      → lookup topic (routes (map ask_for table) m) ≡ lookup topic m
  unfolding routes lookup
  routes-miss [] m topic absent = refl
  routes-miss ((j, h) ∷ table) m topic absent = elim (Bool-cases (j == topic)) [
    | inl same ↦ let found : some h ≡ none = rw same at absent in cc
    | inr other ↦
        rw (routes-miss table (insert j h m) topic (rw other at absent), lookup-insert, other) refl
  ]

  pub routes-hit :
      (table m : Assoc H) (topic : String) (h : H)
      → Keyed table
      → lookup topic table ≡ some h
      → lookup topic (routes (map ask_for table) m) ≡ some h
  unfolding routes lookup
  routes-hit [] m topic h keyed found = cc
  routes-hit ((j, h') ∷ table) m topic h (absent, keyed) found = elim (Bool-cases (j == topic)) [
    | inl same ↦
        let own : some h' ≡ some h = rw same at found in
        let gone : lookup topic table ≡ none = ground (arith, eq_iff j topic) in
        rw (routes-miss table (insert j h' m) topic gone, lookup-insert, same) own
    | inr other ↦ routes-hit table (insert j h' m) topic h keyed (rw other at found)
  ]

  pub insert-within :
      (topic t : String) (handler h : H) (m m' : Assoc H)
      → (lookup t m ≡ some h → lookup t m' ≡ some h)
      → lookup t (insert topic handler m) ≡ some h
      → lookup t (insert topic handler m') ≡ some h
  insert-within topic t handler h m m' within found = elim (Bool-cases (topic == t)) [
    | inl same ↦ rw (lookup-insert, same) (rw (lookup-insert, same) at found)
    | inr other ↦ rw (lookup-insert, other) (within (rw (lookup-insert, other) at found))
  ]

  pub remove-within :
      (topic t : String) (h : H) (m m' : Assoc H)
      → (lookup t m ≡ some h → lookup t m' ≡ some h)
      → lookup t (remove topic m) ≡ some h
      → lookup t (remove topic m') ≡ some h
  remove-within topic t h m m' within found = elim (Bool-cases (topic == t)) [
    | inl same ↦ let gone : none ≡ some h = rw (lookup-remove, same) at found in cc
    | inr other ↦ rw (lookup-remove, other) (within (rw (lookup-remove, other) at found))
  ]
