-- ===== src/Server/Calls.antt =====
-- watch_daemon/api_impl.go: everything that happens to the server, as one step each: the calls of
-- the API and the rounds of the goroutines. dbMu and watchMu make them follow one another.
use golang_time_tracker.Base.{ℕ, ◌≡◌, Option}
use golang_time_tracker.Base.Int.{ℤ}
use golang_time_tracker.Client.{TickRequest, WatchRequest, GetIntervalsRequest}
use golang_time_tracker.Database.{Database}
use golang_time_tracker.Server.State.{Server, Outcome, returned, ◌>>=◌}
use golang_time_tracker.Server.Handlers.{tick, watch, get_watches, get_intervals, clear}
use golang_time_tracker.Server.Recording.{Choices, record_writes_in_db, handle_event, sync_round}

pub data Call : Type 0 where
  call_tick : Option TickRequest → (now : ℤ) → Call
  call_watch : WatchRequest → (now : ℤ) → Call
  call_get_watches : Call
  call_get_intervals : GetIntervalsRequest → (now : ℤ) → Call
  call_clear : Call
  -- A round of syncWatchesLoop, behind so many errors.
  round_sync : (err_count : ℕ) → Call
  -- A round of recordWritesInDB of the watch at a place, and an event that the same watch is told
  -- of.
  round_record : Choices → ℕ → (now : ℤ) → Call
  file_event : ℕ → Call

-- Of what a call returns, the server as it leaves it.
abbrev pub left {ℓ} : {D : Database} {A : Type ℓ} → Outcome (Server D × A) → Outcome (Server D)
left o = o >>= λ r. returned r.0

module _ (D : Database) where
  -- The server as the call leaves it.
  unfoldable pub perform : Call → Server D → Outcome (Server D)
  perform (call_tick req now) s = left (tick D req now s)
  perform (call_watch req now) s = left (watch D req now s)
  perform call_get_watches s = get_watches D s >>= λ r. returned s
  perform (call_get_intervals req now) s = get_intervals D req now s >>= λ r. returned s
  perform call_clear s = left (clear D s)
  perform (round_sync err_count) s = left (sync_round D err_count s)
  perform (round_record ch i now) s = left (record_writes_in_db D ch i now s)
  perform (file_event i) s = returned (handle_event D i s)

  -- `Runs P s t`: calls that return, each of which satisfies `P` where it starts, take the server
  -- from `s` to `t`.
  pub data Runs (P : Server D → Call → Type 0) (s : Server D) : Server D → Type 0 where
    rests : Runs P s s
    goes : {t u : Server D} (c : Call) → Runs P s t → P t c → perform c t ≡ returned u → Runs P s u

  pub Runs-trans :
      (P : Server D → Call → Type 0) (s t u : Server D) → Runs P s t → Runs P t u → Runs P s u
  Runs-trans P s t _ before rests = before
  Runs-trans P s t _ before (goes {t = v} {u = u} c after f e) =
      goes c (Runs-trans P s t v before after) f e
