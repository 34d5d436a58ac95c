-- ===== src/Server/Accounts/Served.antt =====
-- src/yymm_svr/yymms_svr.cpp: the account data of a server that has processed any buffers.
use mms_svr.Prelude.{some_inj, Bool, true, false}
use mms_svr.Prelude.{
  ℕ, ◌≡◌, refl, sym, ap, ◌∙◌, List, [], Option, none, some, none≢some, Option-cases, inl, inr,
}
use mms_svr.Prelude.Keys.{nat_eq}
use mms_svr.StateMap.{get_state, find}
use mms_svr.Server.{Env, ItemData, MmsServer, item, new_server}
use mms_svr.Server.Shell.{finished}
use mms_svr.Server.Login.{Mysql}
use mms_svr.Server.Boss.{BossInfo}
use mms_svr.Server.Close.{process_data, Reply, redis_cb, get_callback, echo, sent_echo}
use mms_svr.Server.Accounts.{shape, WellFormed, SameShape, SameShape-refl, SameShape-WellFormed}
use mms_svr.Server.Accounts.Loops.{process_data-WellFormed}

module _ (env : Env) where
  -- The states between buffers and redis replies, from the start of the server.
  pub data Served : MmsServer env → Type 0 where
    started : Served (new_server env)
    processed :
        {s t : MmsServer env} (nest f : ℕ) (info : BossInfo) (mysql : Mysql)
        → Served s
        → process_data env nest f s info mysql ≡ finished t
        → Served t
    replied :
        {s t : MmsServer env} (attached : Bool) (reply : Option (Reply env)) (fd : ℕ)
        → Served s
        → get_callback env s attached reply fd ≡ some t
        → Served t

  new_server-WellFormed : WellFormed env (new_server env) none
  unfolding new_server get_state find
  new_server-WellFormed = record {
    unique_fds = tt;
    unique_users = tt;
    no_fd = refl;
    no_user = refl;
    owned = λ fd id found. absurd (none≢some found);
    emptied = λ id fd b away there. absurd (none≢some there);
  }

  redis_cb-SameShape :
      (s t : MmsServer env) (reply : Option (Reply env)) (fd : ℕ)
      → redis_cb env s reply fd ≡ some t
      → SameShape env s t
  unfolding redis_cb
  redis_cb-SameShape s t none fd e = rw (← some_inj s t e) (SameShape-refl env s)
  redis_cb-SameShape s t (some Reply.other) fd e = rw (← some_inj s t e) (SameShape-refl env s)
  redis_cb-SameShape s t (some (Reply.array element)) fd e = sent (echo env element) e
    where
      sent : (text : Option (List ℕ)) → sent_echo env s fd text ≡ some t → SameShape env s t
      sent none e = cc
      sent (some text) e =
          rw (← some_inj _ t e) (record { fds = refl; user_data = refl; shapes = λ id. refl })

  get_callback-SameShape :
      (s t : MmsServer env) (attached : Bool) (reply : Option (Reply env)) (fd : ℕ)
      → get_callback env s attached reply fd ≡ some t
      → SameShape env s t
  unfolding get_callback
  get_callback-SameShape s t false reply fd e = rw (← some_inj s t e) (SameShape-refl env s)
  get_callback-SameShape s t true none fd e = rw (← some_inj s t e) (SameShape-refl env s)
  get_callback-SameShape s t true (some reply) fd e = redis_cb-SameShape s t (some reply) fd e

  pub Served-WellFormed : (s : MmsServer env) → Served s → WellFormed env s none
  Served-WellFormed _ started = new_server-WellFormed
  Served-WellFormed _ (processed {s} {t} nest f info mysql before ran) =
      process_data-WellFormed env nest f s t info mysql (Served-WellFormed s before) ran
  Served-WellFormed _ (replied {s} {t} attached reply fd before ran) =
      SameShape-WellFormed env (get_callback-SameShape s t attached reply fd ran)
        (Served-WellFormed s before)

  -- From its start on, whatever buffers the server processes and whatever redis replies, two connections
  -- never lead to the same account, each leads to an account that knows it, and no account keeps bytes.
  pub one_account_each :
      (s : MmsServer env) (fd id : ℕ)
      → Served s
      → get_state s.fds fd ≡ some id
      → ((i : ItemData env) × (item env s id ≡ some i) × (i.fd ≡ fd) × (i.readbuffer ≡ some []))
        × ((other : ℕ) → get_state s.fds other ≡ some id → other ≡ fd)
  one_account_each s fd id h found =
      let w = Served-WellFormed s h in
      let (b, there) = w.owned fd id found in
      (
        elim (Option-cases (item env s id)) [
          | inl absent ↦ absurd (none≢some (ap (shape env) (sym absent) ∙ there))
          | inr (i, at) ↦ (
            i,
            at,
            same_fd i.fd fd i.readbuffer b (ap (shape env) (sym at) ∙ there),
            w.emptied id i.fd i.readbuffer (λ e. none≢some e) (ap (shape env) at),
          )
        ],
        λ other found'.
            let (b', there') = w.owned other id found' in
            same_fd other fd b' b (sym there' ∙ there),
      )
    where
      same_fd :
          (j k : ℕ) (b b' : Option (List ℕ))
          → ◌≡◌ {A = Option (ℕ × Option (List ℕ))} (some (j, b)) (some (k, b'))
          → j ≡ k
      same_fd j k b b' e = cc
