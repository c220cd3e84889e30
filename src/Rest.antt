-- ===== src/Rest.antt =====
-- `send_and_receive` of src/rest_utils.cpp, by which one function asks another.
use Prim.Native.String.{String}
use g_core_rest_sba.Base.{ℕ, Bool, true, false, Option, none, some, ◌==◌, if◌then◌else◌}
use g_core_rest_sba.Base.Stop.{Result, ok, ◌>>=◌}
use g_core_rest_sba.Json.{Json}

-- A function in state `s` that is sent a body: its next state, and the status and the body of its
-- response, if a connection brought one.
abbrev pub Peer : Type 0 → Type 0 → Type 0
Peer S X = S → X → Result (S × Option (ℕ × X))

-- A function's routes.
abbrev pub Routes : Type 0 → Type 0 → Type 0
Routes S X = String → Peer S X

module _ (J : Json) where
  abbrev pub read_into : J.Value → Option J.Value → Bool × J.Value
  read_into recv none = (false, recv)
  read_into recv (some v) = (true, v)

  abbrev pub received : J.Value → Option (ℕ × J.Text) → Bool × J.Value
  received recv none = (false, recv)
  received recv (some (status, body)) =
      if status == 200 then read_into recv (J.parse body) else (false, recv)

  -- Whether a JSON text came back, and `recvPkt`, which is left as it was if not.
  unfoldable pub send_and_receive :
      {S : Type 0} → Peer S J.Text → S → J.Value → J.Value → Result (S × Bool × J.Value)
  send_and_receive peer s send recv = do
    (s', response) ← peer s (J.write send)
    let (done, v) = received recv response
    ok (s', done, v)
