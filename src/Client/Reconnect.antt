-- ===== src/Client/Reconnect.antt =====
-- A request is answered once the daemon can be reached again.
use yagc.Common.{ℕ, zero, suc, ◌≡◌, refl, some, ◌∷◌, String, ok, err, Error}
use yagc.Client.{
  Transport, disconnected, reconnected, DaemonClient, interpret, make_request, talk, requesting,
  reconnecting,
}

module _ (T : Transport) where
  -- The world after so many failed attempts to reconnect, each followed by a pause.
  unfoldable pub waited : ℕ → T.Connection → T.World → T.World
  waited zero stream world = world
  waited (suc n) stream world = waited n stream (T.sleep (T.new_connection stream world).1)

  -- So many attempts fail, and the next one succeeds.
  pub data ReachableAfter : ℕ → T.Connection → T.World → T.Connection → Type 0 where
    at_once :
        {stream connection : T.Connection} {world : T.World}
        → (T.new_connection stream world).0 ≡ ok connection
        → ReachableAfter zero stream world connection
    once_more :
        {n : ℕ} {stream connection : T.Connection} {world : T.World} {e : Error}
        → (T.new_connection stream world).0 ≡ err e
        → ReachableAfter n stream (T.sleep (T.new_connection stream world).1) connection
        → ReachableAfter (suc n) stream world connection

  talk-reached :
      (n : ℕ) (payload : String) (c : DaemonClient T) {connection : T.Connection}
      → (T.new_connection c.stream c.world).0 ≡ ok connection
      → talk T (suc n) reconnecting payload c
        ≡ talk T n requesting payload (record {
          stream = connection;
          status = reconnected ∷ c.status;
          world = (T.new_connection c.stream c.world).1;
        })
  unfolding talk
  talk-reached n payload c h = rw (h, talk) refl

  talk-failed :
      (n : ℕ) (payload : String) (c : DaemonClient T) {e : Error}
      → (T.new_connection c.stream c.world).0 ≡ err e
      → talk T (suc n) reconnecting payload c
        ≡ talk T n reconnecting payload
            (record c { world = T.sleep (T.new_connection c.stream c.world).1 })
  unfolding talk
  talk-failed n payload c h = rw (h, talk) refl

  talk-lost :
      (n : ℕ) (payload : String) (c : DaemonClient T) {e : Error}
      → (T.request c.stream payload c.world).0 ≡ err e
      → talk T (suc n) requesting payload c
        ≡ talk T n reconnecting payload (record c {
          status = disconnected ∷ c.status;
          world = (T.request c.stream payload c.world).1;
        })
  unfolding talk
  talk-lost n payload c h = rw (h, talk) refl

  talk-answered :
      (n : ℕ) (payload : String) (c : DaemonClient T) {response : String}
      → (T.request c.stream payload c.world).0 ≡ ok response
      → talk T (suc n) requesting payload c
        ≡ (some (interpret T response), record c { world = (T.request c.stream payload c.world).1 })
  unfolding talk
  talk-answered n payload c h = rw (h, talk) refl

  reconnect-answered :
      (n : ℕ) (payload response : String) (c : DaemonClient T) (connection : T.Connection)
      → ReachableAfter n c.stream c.world connection
      → (T.request connection payload (T.new_connection c.stream (waited n c.stream c.world)).1).0
        ≡ ok response
      → ((talk T (suc (suc n)) reconnecting payload c).0 ≡ some (interpret T response))
        × ((talk T (suc (suc n)) reconnecting payload c).1.status ≡ reconnected ∷ c.status)
  unfolding waited
  reconnect-answered zero payload response c connection (at_once reached) answers =
      let again : DaemonClient T = record {
        stream = connection;
        status = reconnected ∷ c.status;
        world = (T.new_connection c.stream c.world).1;
      } in
      rw (talk-reached (suc zero) payload c reached, talk-answered zero payload again answers)
        (refl, refl)
  reconnect-answered (suc n) payload response c connection (once_more failed later) answers =
      rw (talk-failed (suc (suc n)) payload c failed) (
        reconnect-answered n payload response
          (record c { world = T.sleep (T.new_connection c.stream c.world).1 }) connection later
          answers)

  -- When a request fails because the daemon is gone, and a connection can be made again after some
  -- number of failed attempts, over which the daemon then responds, the request ends with that
  -- response, with fuel for one call more than these; and the client has told that it was
  -- disconnected, and then that it was reconnected, once each.
  pub make_request-answered :
      (n : ℕ) (payload response : String) (c : DaemonClient T) (connection : T.Connection)
      (e : Error)
      → (T.request c.stream payload c.world).0 ≡ err e
      → ReachableAfter n c.stream (T.request c.stream payload c.world).1 connection
      → (T.request connection payload
          (T.new_connection c.stream
            (waited n c.stream (T.request c.stream payload c.world).1)).1).0
        ≡ ok response
      → ((make_request T (suc (suc (suc n))) payload c).0 ≡ some (interpret T response))
        × ((make_request T (suc (suc (suc n))) payload c).1.status
            ≡ reconnected ∷ disconnected ∷ c.status)
  unfolding make_request
  make_request-answered n payload response c connection e lost reachable answers =
      rw (talk-lost (suc (suc n)) payload c lost) (
        reconnect-answered n payload response
          (record c {
            status = disconnected ∷ c.status;
            world = (T.request c.stream payload c.world).1;
          })
          connection reachable answers)
