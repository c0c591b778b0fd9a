-- ===== src/RequestCorrelator/Tests.antt =====
-- Two requests: the first is acked twice, the second is pending when the connection drops.
use parasor.Base.Int.{pos}
use parasor.Base.{◌≡◌, refl, List, [], ◌∷◌, ◌++◌, String}
use parasor.Base.Map.{lookup, insert, erase}
use parasor.HostProtocol.Frame.{Frame}
use parasor.RequestCorrelator.Accounts.{
  Event, requests, acked, occur_all, Accounts, occur_all-Accounts, occur_all-drops,
}
use parasor.RequestCorrelator.Times.{times}
use parasor.RequestCorrelator.{
  Deps, new_correlator, resolved, rejected, request, ack, reject_all, reject_each,
}

abbrev deps : Deps String
deps = record { timeout_ms = 500; build_timeout_error = λ id ms. "timeout" }

abbrev reply : Frame
reply = record {
  type = pos 0x11;
  connection_id = pos 1;
  generation = pos 1;
  request_id = pos 1;
  payload = [];
}

abbrev history : List (Event String)
history = requests 0x10 [] ∷ requests 0x14 [] ∷ acked reply ∷ acked reply ∷ []

settled_by_history : (occur_all deps history new_correlator).1 ≡ (1, resolved reply) ∷ []
unfolding occur_all request ack lookup insert erase
settled_by_history = refl

settled_by_drop :
    (reject_all {E = String} "gone" (occur_all deps history new_correlator).0).1
    ≡ (2, rejected "gone") ∷ []
unfolding occur_all request ack reject_all reject_each lookup insert erase
settled_by_drop = refl

occur_all-Accounts_example :
    Accounts (occur_all deps history new_correlator).0 (occur_all deps history new_correlator).1
occur_all-Accounts_example = occur_all-Accounts deps history

occur_all-drops_example :
    times 2 (
      (occur_all deps history new_correlator).1
      ++ (reject_all "gone" (occur_all deps history new_correlator).0).1)
    ≡ 1
unfolding occur_all request ack lookup insert erase
occur_all-drops_example = occur_all-drops deps history "gone" 2
