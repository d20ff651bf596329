-- ===== src/Commands/Serving.antt =====
-- The serve command of cli/main.go, and ServeOverHTTP of watch_daemon/http_api.go, up to where it
-- listens on the port.
use Prim.Native.Nat.{bit_and}
use golang_time_tracker.Base.{
  ℕ, ◌==◌, ◌≡◌, ◌↔◌, Bool, true, false, not, Option, none, some, arith, if◌then◌else◌,
}

data ServeEnd : Type 0 where
  no_data_dir no_permission no_server already_running listening : ServeEnd

-- ServeOverHTTP: whether a daemon answers /status on the address.
unfoldable serve_over_http : Bool → ServeEnd
serve_over_http answers = if answers then already_running else listening

-- What os.Stat tells of the data directory, its permissions, and whether os.Mkdir and NewServer
-- succeed.
unfoldable serve_command : Option ℕ → Bool → Bool → Bool → ServeEnd
unfolding serve_over_http
serve_command dir_mode makes_dir makes_server answers =
    let serve = if makes_server then serve_over_http answers else no_server in
    elim dir_mode [
      | none ↦ if makes_dir then serve else no_data_dir
      | some mode ↦ if not (bit_and mode 448 == 448) then no_permission else serve
    ]

-- The data directory is there with all permissions, or can be made.
unfoldable IsReady : Option ℕ → Bool → Type 0
IsReady none makes_dir = makes_dir ≡ true
IsReady (some mode) makes_dir = bit_and mode 448 ≡ 448

-- The daemon comes to listen exactly if its data directory is ready, the server can be made, and no
-- other daemon answers on its address.
serve_command-listening :
    (dir_mode : Option ℕ) (makes_dir makes_server answers : Bool)
    → (serve_command dir_mode makes_dir makes_server answers ≡ listening)
      ↔ (IsReady dir_mode makes_dir × ((makes_server ≡ true) × (answers ≡ false)))
unfolding serve_command serve_over_http IsReady
serve_command-listening none makes_dir makes_server answers = (λ h. ground arith, λ h. ground arith)
serve_command-listening (some mode) makes_dir makes_server answers =
    (λ h. ground arith, λ h. ground arith)
