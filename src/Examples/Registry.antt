-- ===== src/Examples/Registry.antt =====
-- The theorem on the simple registry at one request.
use mesher.Prelude.{[], ◌∷◌, ◌≡◌, refl, arith, replicate}
use mesher.Conn.{closed}
use mesher.SimpleRegistry.{handle_conn}
use mesher.SimpleRegistry.Answers.{Message, one_by_one, void_frames, handle_conn-answers}
use mesher.Examples.Samples.{hessian, sample_request}

abbrev message : Message
message = record {
  request = sample_request;
  body = 1 ∷ 2 ∷ 3 ∷ [];
  small = omega arith;
  clear = refl;
  fits = omega arith;
}

handle_conn-answers_example :
    handle_conn hessian 2 (replicate 1024 0) (one_by_one (message ∷ []))
    ≡ record { writes = void_frames hessian (message ∷ []); ending = closed }
handle_conn-answers_example =
    handle_conn-answers hessian 2 (replicate 1024 0) (message ∷ []) refl (omega arith)
