-- ===== src/Examples/Client.antt =====
-- A daemon that is restarted while a client makes a request.
use yagc.Common.{
  ℕ, suc, ◌≡◌, refl, some, [], ◌∷◌, String, ok, err, save_failed, if◌then◌else◌, nat_beq,
}
use yagc.Client.{Transport, DaemonClient, interpret, make_request, reconnected, disconnected}
use yagc.Client.Reconnect.{at_once, once_more, make_request-answered}

-- The world is the time in pauses; from the third on the daemon is there, and takes connections
-- that are newer than the restart.
abbrev restarted : Transport
restarted = record {
  World = ℕ;
  Connection = ℕ;
  request =
      λ connection payload now. (if nat_beq connection 0 then err save_failed else ok "pong", now);
  new_connection = λ stream now. (if nat_beq now 2 then ok 1 else err save_failed, now);
  sleep = λ now. suc now;
  Data = String;
  parse_response = λ response. some (ok response);
}

abbrev client : DaemonClient restarted
client = record { stream = 0; status = []; world = 0 }

make_request-answered_example :
    ((make_request restarted 5 "ping" client).0 ≡ some (interpret restarted "pong"))
    × ((make_request restarted 5 "ping" client).1.status ≡ reconnected ∷ disconnected ∷ [])
make_request-answered_example =
    make_request-answered restarted 2 "ping" "pong" client 1 save_failed refl
      (once_more refl (once_more refl (at_once refl))) refl
