-- ===== src/Server/Startup/Runs.antt =====
-- src/yymm_svr/main.cpp: when the server is run, and what it starts with.
use mms_svr.Prelude.{ℕ, ◌≡◌, refl, sym, ◌∙◌, true, inl, inr, Bool-cases}
use mms_svr.Prelude.Int.{ℤ, pos, negsuc}
use mms_svr.Cfg.{Xml, Cfg, Loaded, refused, crashed, loaded, parse_cfg}
use mms_svr.Event
use mms_svr.Event.{
  LibEvent, BindAnswers, bind, new_lib_event, add_queue_event, redis, writer, write_event_flag,
  redis_event_flag, receiver,
}
use mms_svr.Server.Startup.{
  StartAnswers, Running, Ended, died, init_error, running, start_threads, init_mms_exec, init, main,
  of_loaded,
}

-- The configuration was read, the number of threads is not negative, and the three parts of `init` succeed.
pub record Starts (xml : Xml) (g_cfg : Cfg) (a : StartAnswers) : Type 0 where
  pub cfg : Cfg
  pub threads : ℕ
  pub parsed : parse_cfg xml g_cfg ≡ loaded cfg
  pub workthreads : cfg.workthreads ≡ pos threads
  pub base : a.base ≡ true
  pub pair : a.pair ≡ true
  pub client_port : bind a.client_port ≡ true
  pub mang_port : bind a.mang_port ≡ true

not_run : (e : Ended) (r : Running) → e ≡ init_error → e ≡ running r → ⊥
not_run e r failed ran = cc

init_running :
    (n : ℤ) (a : StartAnswers) (r : Running)
    → init n a ≡ running r
    → (a.base ≡ true) × (a.pair ≡ true) × (bind a.client_port ≡ true) × (bind a.mang_port ≡ true)
unfolding init Event.init init_mms_exec
init_running n a r e = elim (Bool-cases a.base) [
  | inr failed ↦ absurd (not_run (init n a) r (rw failed refl) e)
  | inl base ↦ elim (Bool-cases a.pair) [
    | inr failed ↦ absurd (not_run (init n a) r (rw (base, failed) refl) e)
    | inl pair ↦ elim (Bool-cases (bind a.client_port)) [
      | inr failed ↦ absurd (not_run (init n a) r (rw (base, pair, failed) refl) e)
      | inl client ↦ elim (Bool-cases (bind a.mang_port)) [
        | inr failed ↦ absurd (not_run (init n a) r (rw (base, pair, client, failed) refl) e)
        | inl mang ↦ (base, pair, client, mang)
      ]
    ]
  ]
]

no_negative : (n : ℕ) (a : StartAnswers) (r : Running) → init (negsuc n) a ≡ running r → ⊥
unfolding init Event.init init_mms_exec start_threads
no_negative n a r e =
    let (base, pair, client, mang) = init_running (negsuc n) a r e in
    died_not_run (sym (rw (base, pair, client, mang) refl) ∙ e)
  where
    died_not_run : died ≡ running r → ⊥
    died_not_run q = cc

threads_of : (n : ℤ) (a : StartAnswers) (r : Running) → init n a ≡ running r → (k : ℕ) × (n ≡ pos k)
threads_of (pos k) a r e = (k, refl)
threads_of (negsuc k) a r e = absurd (no_negative k a r e)

of_loaded-running :
    (l : Loaded) (a : StartAnswers) (r : Running)
    → of_loaded l (λ cfg. init cfg.workthreads a) ≡ running r
    → (cfg : Cfg) × (l ≡ loaded cfg) × (init cfg.workthreads a ≡ running r)
of_loaded-running refused a r e = cc
of_loaded-running crashed a r e = cc
of_loaded-running (loaded cfg) a r e = (cfg, refl, e)

-- `main` runs the server only when the configuration is loaded with a number of threads that is not negative and the
-- event base, the socket pair and both listeners succeed.
pub main-Starts :
    (xml : Xml) (g_cfg : Cfg) (a : StartAnswers) (r : Running)
    → main xml g_cfg a ≡ running r
    → Starts xml g_cfg a
unfolding main
main-Starts xml g_cfg a r e =
    let (cfg, parsed, ran) = of_loaded-running (parse_cfg xml g_cfg) a r e in
    let (base, pair, client, mang) = init_running cfg.workthreads a r ran in
    let (k, threads) = threads_of cfg.workthreads a r ran in
    record {
      cfg = cfg;
      threads = k;
      parsed = parsed;
      workthreads = threads;
      base = base;
      pair = pair;
      client_port = client;
      mang_port = mang;
    }
