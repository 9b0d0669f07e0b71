-- ===== src/Csms/History.antt =====
-- Any run of commands, and the ids of the CALLs that it publishes.
mod Tests
use ocpp_simulator.Base.{
  ℕ, ◌+◌, ◌<◌, ◌≤◌, ◌≡◌, ◌≢◌, refl, sym, ap, ◌∙◌, ◌⊎◌, inl, inr, arith, String, List, [], ◌∷◌, ◌++◌,
  Option, none, some, All, All-map, AllPairs, Option-cases, Bool, true, false, if◌then◌else◌,
}
use mathlib.Core.List.{append_assoc, append-nil}
use ocpp_simulator.Result.{Error, Result, ok, err}
use ocpp_simulator.Result.Laws.{ok_inj}
use ocpp_simulator.Json.{Json, Bytes, json}
use ocpp_simulator.Message.{Message, call}
use ocpp_simulator.Codec.{encode, decode, build_call}
use ocpp_simulator.Codec.Shape.{is_call}
use ocpp_simulator.Codec.RoundTrip.{decode-encode}
use ocpp_simulator.Schemas.{SchemaLibrary, v16, request, validate}
use ocpp_simulator.Topic.{out_topic}
use ocpp_simulator.Csms.{
  Surroundings, Service, publish, remote_start, remote_stop, reset, unlock_connector,
  change_configuration, get_configuration, trigger_message, change_availability,
}
use ocpp_simulator.Csms.Understood.{
  Command, remote_start_command, remote_stop_command, reset_command, unlock_connector_command,
  change_configuration_command, get_configuration_command, trigger_message_command,
  change_availability_command, send,
}

abbrev pub Frame : Type 0
Frame = String × Bytes × Option Error

-- The frame is a CALL with the id.
abbrev IsCallWith : String → Frame → Type 0
IsCallWith id f =
    (m : Message) × (decode f.1 ≡ ok m) × (m.message_type_id ≡ call) × (m.unique_id ≡ id)

module _ (library : SchemaLibrary) (env : Surroundings) where
  -- A command publishes nothing, or one CALL under the next id.
  abbrev Issues : Service → Service → Type 0
  Issues s s' =
      ((s'.published ≡ s.published) × (s.unique_id ≤ s'.unique_id))
      ⊎ ((f : Frame) × (s'.published ≡ s.published ++ (f ∷ []))
          × (s'.unique_id ≡ 1 + s.unique_id)
          × IsCallWith (env.id_text (1 + s.unique_id)) f)

  publish-Issues :
      (id action : String) (p : Json) (s : Service)
      → action ≢ ""
      → Issues s (publish library env id action p s).1
  unfolding publish build_call
  publish-Issues id action p s named =
      let uid = env.id_text (1 + s.unique_id) in
      let (raw, encoded, decoded) =
        decode-encode (build_call uid action p) (is_call uid action p) (λ _. named) in
      elim (Option-cases (validate library v16 action request (json p))) [
        | inr (e, refused) ↦ rw refused (inl (refl, omega arith))
        | inl valid ↦
            rw (valid, encoded)
              (inr (
                (out_topic id, raw, env.publish (out_topic id) raw),
                refl,
                refl,
                (build_call uid action p, decoded, refl, refl),
              ))
      ]

  guarded-Issues :
      (refuses : Bool) (e : Error) (id action : String) (p : Json) (s : Service)
      → action ≢ ""
      → Issues s (if refuses then (err e, s) else publish library env id action p s).1
  guarded-Issues true e id action p s named = inl (refl, omega arith)
  guarded-Issues false e id action p s named = publish-Issues id action p s named

  send-Issues : (c : Command) (id : String) (s : Service) → Issues s (send library env c id s).1
  unfolding send remote_start remote_stop reset unlock_connector change_configuration
      get_configuration trigger_message change_availability
  send-Issues (remote_start_command t c) id s = publish-Issues id _ _ s (λ e. cc)
  send-Issues (remote_stop_command n) id s = publish-Issues id _ _ s (λ e. cc)
  send-Issues (get_configuration_command ks) id s = publish-Issues id _ _ s (λ e. cc)
  send-Issues (reset_command t) id s = guarded-Issues _ _ id _ _ s (λ e. cc)
  send-Issues (unlock_connector_command c) id s = guarded-Issues _ _ id _ _ s (λ e. cc)
  send-Issues (change_configuration_command k v) id s = guarded-Issues _ _ id _ _ s (λ e. cc)
  send-Issues (trigger_message_command m c) id s = guarded-Issues _ _ id _ _ s (λ e. cc)
  send-Issues (change_availability_command c t) id s = guarded-Issues _ _ id _ _ s (λ e. cc)

-- A command to a charge point, with the random bytes that are drawn for its id and what the broker
-- answers to a frame.
pub record Issue : Type 0 where
  pub command : Command
  pub charge_point_id : String
  pub random : String
  pub publish_answer : String → Bytes → Option Error

module _ (library : SchemaLibrary) (id_text : String → ℕ → String) where
  abbrev surroundings : Issue → Surroundings
  surroundings i = record { publish = i.publish_answer; id_text = id_text i.random }

  unfoldable pub send_all : List Issue → Service → Service
  unfolding send
  send_all [] s = s
  send_all (i ∷ is) s = send_all is (send library (surroundings i) i.command i.charge_point_id s).1

  -- A CALL whose id is of a counter above n.
  abbrev IsAbove : ℕ → Frame → Type 0
  IsAbove n f = (random : String) × (k : ℕ) × IsCallWith (id_text random k) f × (n < k)

  abbrev pub IsCall : Frame → Type 0
  IsCall f = (m : Message) × (decode f.1 ≡ ok m) × (m.message_type_id ≡ call)

  abbrev pub IdsDiffer : Frame → Frame → Type 0
  IdsDiffer f g =
      (m n : Message) → decode f.1 ≡ ok m → decode g.1 ≡ ok n → m.unique_id ≢ n.unique_id

  module _ (texts : (r q : String) (k n : ℕ) → k ≢ n → id_text r k ≢ id_text q n) where
    IdsDiffer-above :
        (r : String) (k : ℕ) (f g : Frame)
        → IsCallWith (id_text r k) f
        → IsAbove k g
        → IdsDiffer f g
    IdsDiffer-above r k f g (m, read, _, named) (q, n, (m', read', _, named'), above) a b reads
          reads' same =
        texts r q k n (λ e. omega arith)
          (sym named
            ∙ ap (λ (x : Message). x.unique_id) (ok_inj (sym read ∙ reads))
            ∙ same
            ∙ ap (λ (x : Message). x.unique_id) (ok_inj (sym reads' ∙ read'))
            ∙ named')

    send_all-IsAbove :
        (is : List Issue) (s : Service)
        → (fs : List Frame) × ((send_all is s).published ≡ s.published ++ fs)
          × All (IsAbove s.unique_id) fs
          × AllPairs IdsDiffer fs
    unfolding send_all
    send_all-IsAbove [] s = ([], sym (append-nil s.published), tt, tt)
    send_all-IsAbove (i ∷ is) s =
        let s' = (send library (surroundings i) i.command i.charge_point_id s).1 in
        let (fs, later, above, differ) = send_all-IsAbove is s' in
        elim (send-Issues library (surroundings i) i.command i.charge_point_id s) [
          | inl (same, le) ↦ (
            fs,
            later ∙ ap (λ ps. ps ++ fs) same,
            All-map (IsAbove s'.unique_id) (IsAbove s.unique_id) fs
                (λ f (r, k, sent_call, lt). (r, k, sent_call, omega arith)) above,
            differ,
          )
          | inr (f, one_more, counted, sent_call) ↦ (
            f ∷ fs,
            later ∙ ap (λ ps. ps ++ fs) one_more ∙ append_assoc s.published (f ∷ []) fs,
            (
              (i.random, 1 + s.unique_id, sent_call, omega arith),
              All-map (IsAbove s'.unique_id) (IsAbove s.unique_id) fs
                  (λ g (r, k, sent_call', lt). (r, k, sent_call', omega arith)) above,
            ),
            (
              All-map (IsAbove s'.unique_id) (IdsDiffer f) fs
                  (λ g (r, k, sent_call', lt).
                    IdsDiffer-above i.random (1 + s.unique_id) f g sent_call
                      (r, k, sent_call', omega arith))
                  above,
              differ,
            ),
          )
        ]

    -- Over any run of commands, where texts of different counters differ whatever random bytes are
    -- drawn: the frames that are handed to the broker are CALLs, and no two have the same id.
    pub send_all-distinct :
        (is : List Issue) (s : Service)
        → (fs : List Frame) × ((send_all is s).published ≡ s.published ++ fs)
          × All IsCall fs
          × AllPairs IdsDiffer fs
    send_all-distinct is s =
        let (fs, later, above, differ) = send_all-IsAbove is s in
        (
          fs,
          later,
          All-map (IsAbove s.unique_id) IsCall fs
              (λ f (r, k, sent_call, lt). (sent_call.0, sent_call.1, sent_call.2)) above,
          differ,
        )
