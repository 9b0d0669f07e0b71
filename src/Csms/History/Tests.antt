-- ===== src/Csms/History/Tests.antt =====
-- Three commands, one of which its guard refuses.
use ocpp_simulator.Base.{
  ℕ, suc, zero, ◌≡◌, refl, ap, String, List, [], ◌∷◌, ◌++◌, none, some, pos, All, AllPairs,
}
use ocpp_simulator.Result.{msg}
use ocpp_simulator.Schemas.Tests.{open_library}
use ocpp_simulator.Csms.Understood.{remote_stop_command, reset_command}
use ocpp_simulator.Csms.Understood.Tests.{idle}
use ocpp_simulator.Csms.History.{Frame, Issue, send_all, IsCall, IdsDiffer, send_all-distinct}

unary : ℕ → String
unary zero = ""
unary (suc n) = String.◌∷◌ "1" (unary n)

abbrev id_text : String → ℕ → String
id_text random n = unary n

unary_inj : (k n : ℕ) → unary k ≡ unary n → k ≡ n
unfolding unary
unary_inj zero zero e = refl
unary_inj zero (suc n) e = cc
unary_inj (suc k) zero e = cc
unary_inj (suc k) (suc n) e = ap (λ m. suc m) (unary_inj k n (cc))

abbrev issues : List Issue
issues =
    record {
      command = reset_command "Hard";
      charge_point_id = "CP-1";
      random = "a";
      publish_answer = λ topic raw. none;
    }
    ∷ record {
      command = reset_command "Cold";
      charge_point_id = "CP-1";
      random = "b";
      publish_answer = λ topic raw. none;
    }
    ∷ record {
      command = remote_stop_command (pos 4);
      charge_point_id = "CP-2";
      random = "c";
      publish_answer = λ topic raw. some (msg "mqtt publish timeout");
    }
    ∷ []

send_all-distinct_example :
    (fs : List Frame) × ((send_all open_library id_text issues idle).published
      ≡ idle.published ++ fs)
    × All (IsCall open_library id_text) fs
    × AllPairs (IdsDiffer open_library id_text) fs
send_all-distinct_example =
    send_all-distinct open_library id_text (λ r q k n differ same. differ (unary_inj k n same))
      issues idle
