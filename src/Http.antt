-- ===== src/Http.antt =====
-- What the library sees of net/http: a request goes out, and something comes back. The network, the
-- timeouts and the cancellation of a context are in the answer.
use gateway_auth.Prelude.{ℕ, Option, none, some, Result, ok, err, if◌then◌else◌, ltb, length, take}
use gateway_auth.Text.{Bytes}

-- A GET request: its URL, and its Authorization header where one is set.
pub record Request : Type 0 where
  pub url : Bytes
  pub authorization : Option Bytes

-- The body of a response: the bytes it delivers, and the error, if any, that reading it ends in.
pub record Body : Type 0 where
  pub content : Bytes
  pub broken : Option Bytes

-- `http.NewRequestWithContext` refuses the URL, `client.Do` fails, or a response comes.
pub data Exchange : Type 0 where
  not_built : Bytes → Exchange
  failed : Bytes → Exchange
  answered : ℕ → Body → Exchange

abbrev pub Network : Type 0
Network = Request → Exchange

abbrev pub status_ok : ℕ
status_ok = 200

-- `io.ReadAll(io.LimitReader(body, n))`: at most `n` bytes; an error behind them is not met.
unfoldable pub read_limited : ℕ → Body → Result Bytes Bytes
read_limited n body =
    if ltb (length body.content) n
    then elim body.broken [ none ↦ ok body.content | some e ↦ err e ]
    else ok (take n body.content)
