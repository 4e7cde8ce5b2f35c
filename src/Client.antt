-- ===== src/Client.antt =====
-- lact-client/src/lib.rs: a request over the socket, and the reconnection when the daemon is gone.
pub mod Reconnect
use yagc.Common.{ℕ, zero, suc, Option, none, some, List, [], ◌∷◌, String, Result, ok, err, Error}

-- The socket, as the connection's methods give it, and the texts of requests and responses. What a
-- call does depends on the world, which it changes; time passes in a pause.
pub record Transport : Type 1 where
  pub World : Type 0
  pub Connection : Type 0
  pub request : Connection → String → World → Result String × World
  pub new_connection : Connection → World → Result Connection × World
  pub sleep : World → World
  pub Data : Type 0
  -- `serde_json::from_str` of a `Response`: nothing where the text is none
  pub parse_response : String → Option (Result Data)

-- `ConnectionStatusMsg`
pub data ConnectionStatusMsg : Type 0 where
  disconnected reconnected : ConnectionStatusMsg

-- What a request comes to: data, an error of the daemon, or an answer that cannot be read.
pub data Answer (D : Type 0) : Type 0 where
  answered : D → Answer D
  refused : Error → Answer D
  unreadable : Answer D

-- The two parts of `make_request`: the request itself, and the loop after it failed.
pub data Phase : Type 0 where
  requesting reconnecting : Phase

module _ (T : Transport) where
  -- The stream, and the messages that were sent about it, the latest first.
  pub record DaemonClient : Type 0 where
    pub stream : T.Connection
    pub status : List ConnectionStatusMsg
    pub world : T.World

  unfoldable pub interpret : String → Answer T.Data
  interpret payload = elim (T.parse_response payload) [
    | none ↦ unreadable
    | some response ↦ elim response [ ok contents ↦ answered contents | err e ↦ refused e ]
  ]

  -- The loop of reconnections goes on for as long as they fail, and then the request is made again;
  -- on fuel, one for each call of the transport.
  unfoldable pub talk : ℕ → Phase → String → DaemonClient → Option (Answer T.Data) × DaemonClient
  unfolding interpret
  talk zero phase payload c = (none, c)
  talk (suc fuel) requesting payload c =
      let (r, after) = T.request c.stream payload c.world in
      elim r [
        | ok response ↦ (some (interpret response), record c { world = after })
        | err e ↦
            talk fuel reconnecting payload
              (record c { status = disconnected ∷ c.status; world = after })
      ]
  talk (suc fuel) reconnecting payload c =
      let (r, after) = T.new_connection c.stream c.world in
      elim r [
        | ok connection ↦
            talk fuel requesting payload
              (record { stream = connection; status = reconnected ∷ c.status; world = after })
        | err e ↦ talk fuel reconnecting payload (record c { world = T.sleep after })
      ]

  unfoldable pub make_request : ℕ → String → DaemonClient → Option (Answer T.Data) × DaemonClient
  unfolding talk
  make_request fuel payload c = talk fuel requesting payload c
