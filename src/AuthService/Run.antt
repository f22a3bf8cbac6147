-- ===== src/AuthService/Run.antt =====
-- Runs of internal/app/authservice/service.go, in the order in which its locks admit the calls.
use obsidian.Common.Map.{delete, lookup, lookup-insert, lookup-delete}
use obsidian.Common.{
  ℕ, suc, ◌+◌, ◌≤◌, ◌<◌, ◌≡◌, ◌≢◌, ap, ◌∙◌, inl, inr, true, false, List, [], ◌∷◌, none, some, arith,
  All, Bytes, same, same_iff, Bool-cases,
}
use obsidian.AuthService.Lockout.{authenticate-free, authenticate-locked, wrong-locks}
use obsidian.AuthService.{
  Result, Service, User, Users, attempts_of, authenticate, check_lockout, check_user, err,
  fail_count, found, is_account_locked, last_hour, record_attempt, too_many_attempts,
  unlock_account,
}

-- A call of the service.
pub data Op : Type 0 where
  attempt : Bytes → Bytes → Bytes → ℕ → Op
  ask : Bytes → ℕ → Op
  unlock : Bytes → Op

-- If the call is about the account, it is made before `until` and does not unlock it.
abbrev pub Before : Bytes → ℕ → Op → Type 0
Before username until (attempt other password client_ip now) = other ≡ username → now < until
Before username until (ask other now) = other ≡ username → now < until
Before username until (unlock other) = other ≢ username

module _ (db : Users) where
  unfoldable pub step : Service → Op → Service
  step s (attempt username password client_ip now) =
      (authenticate db s username password client_ip now).0
  step s (ask username now) = (is_account_locked s username now).0
  step s (unlock username) = unlock_account s username

  unfoldable pub run : Service → List Op → Service
  run s [] = s
  run s (op ∷ ops) = run (step s op) ops

  check_user-other :
      (s : Service) (username other password client_ip : Bytes) (now : ℕ)
      → same other username ≡ false
      → lookup username (check_user db s other password client_ip now).0.locked_users
        ≡ lookup username s.locked_users
  unfolding check_user check_lockout record_attempt
  check_user-other s username other password client_ip now e =
      ground
        (arith, e, lookup-insert other username (now + s.config.lockout_duration) s.locked_users)

  authenticate-other :
      (s : Service) (username other password client_ip : Bytes) (now : ℕ)
      → same other username ≡ false
      → lookup username (authenticate db s other password client_ip now).0.locked_users
        ≡ lookup username s.locked_users
  unfolding authenticate record_attempt
  authenticate-other s username other password client_ip now e = ground (
    arith,
    e,
    check_user-other s username other password client_ip now e,
    check_user-other (record s { locked_users = delete other s.locked_users }) username other
        password client_ip now e,
    lookup-delete other username s.locked_users,
  )

  step-locked :
      (s : Service) (username : Bytes) (until : ℕ) (op : Op)
      → Before username until op
      → lookup username s.locked_users ≡ some until
      → lookup username (step s op).locked_users ≡ some until
  unfolding step is_account_locked unlock_account
  step-locked s username until (attempt other password client_ip now) b h =
      elim (Bool-cases (same other username)) [
        | inl e ↦
            let is_it = (same_iff other username).0 e in
            ap (λ n. lookup username (authenticate db s n password client_ip now).0.locked_users)
              is_it
            ∙ (authenticate-locked db s username password client_ip until now h (b is_it)).1
        | inr e ↦ authenticate-other s username other password client_ip now e ∙ h
      ]
  step-locked s username until (ask other now) b h = elim (Bool-cases (same other username)) [
    | inl e ↦
        let is_it = (same_iff other username).0 e in
        ap (λ n. lookup username (is_account_locked s n now).0.locked_users) is_it
        ∙ ground (arith, h, b is_it)
    | inr e ↦ ground (arith, e, h, lookup-delete other username s.locked_users)
  ]
  step-locked s username until (unlock other) b h =
      ground (arith, b, h, same_iff other username, lookup-delete other username s.locked_users)

  run-locked :
      (s : Service) (username : Bytes) (until : ℕ) (ops : List Op)
      → All (Before username until) ops
      → lookup username s.locked_users ≡ some until
      → lookup username (run s ops).locked_users ≡ some until
  unfolding run
  run-locked s username until [] b h = h
  run-locked s username until (op ∷ ops) (b, bs) h =
      run-locked (step s op) username until ops bs (step-locked s username until op b h)

  -- Of an enabled account without a lock, the wrong password that reaches the limit within the
  -- lockout's duration, which is not 0, and the last hour locks it: each later try before the end of
  -- the duration is refused, whatever
  -- calls come in between, if those for this account come before that end and none unlocks it.
  pub authenticate-lockout :
      (s : Service) (username password client_ip : Bytes) (now : ℕ) (user : User) (ops : List Op)
      (again later_ip : Bytes) (later : ℕ)
      → lookup username s.locked_users ≡ none
      → db.get_user username ≡ found user
      → user.enabled ≡ true
      → db.verify_password user.password_hash password ≡ false
      → 0 < s.config.lockout_duration
      → s.config.max_failed_attempts
        ≤ suc (fail_count s.config.lockout_duration now (last_hour now (attempts_of s username)))
      → All (Before username (now + s.config.lockout_duration)) ops
      → later < now + s.config.lockout_duration
      → (authenticate db
          (run (authenticate db s username password client_ip now).0 ops)
          username
          again
          later_ip
          later).1
        ≡ err too_many_attempts
  authenticate-lockout s username password client_ip now user ops again later_ip later free known on
        wrong pos enough between before =
      let until = now + s.config.lockout_duration in
      let s' = (authenticate db s username password client_ip now).0 in
      let locked : lookup username s'.locked_users ≡ some until =
        ap (λ (r : Service × Result User). lookup username r.0.locked_users)
          (authenticate-free db s username password client_ip now free)
        ∙ wrong-locks db s username password client_ip now user known on wrong pos enough in
      (authenticate-locked db (run s' ops) username again later_ip until later
        (run-locked s' username until ops between locked) before).0
