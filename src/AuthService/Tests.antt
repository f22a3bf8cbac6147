-- ===== src/AuthService/Tests.antt =====
-- The lockout on a small service. A password's hash is the password itself.
use obsidian.Common.Map.{lookup}
use obsidian.Common.{suc, ◌≤◌, ◌≡◌, refl, true, false, [], ◌∷◌, some, arith, codes, same, All, List}
use obsidian.AuthService.{
  Config, User, found, Users, Service, too_many_attempts, err, attempts_of, last_hour, fail_count,
  authenticate,
}
use obsidian.AuthService.Run.{Before, Op, ask, attempt, authenticate-lockout, run, unlock}

abbrev ann : User
ann = record { username = codes "ann"; password_hash = codes "secret"; enabled = true }

abbrev one_user : Users
one_user = record { get_user = λ name. found ann; verify_password = λ h p. same h p }

-- Two failures lock an account for 900 ticks.
abbrev limits : Config
limits = record { max_failed_attempts = 2; lockout_duration = 900 }

abbrev failed_once : Service
failed_once = record {
  config = limits;
  locked_users = [];
  attempts =
      (
        codes "ann",
        record {
          username = codes "ann";
          ip_address = [];
          timestamp = 5;
          successful = false;
          fail_reason = [];
        }
            ∷ [],
      )
      ∷ [];
}

abbrev locked : Service
locked = record failed_once { locked_users = (codes "ann", 100) ∷ [] }

is_locked : lookup (codes "ann") locked.locked_users ≡ some 100
unfolding lookup same
is_locked = refl

wrong_password : same (codes "secret") (codes "guess") ≡ false
unfolding same
wrong_password = refl

second_failure : 2 ≤ suc (fail_count 900 10 (last_hour 10 (attempts_of failed_once (codes "ann"))))
unfolding fail_count last_hour attempts_of lookup same
second_failure = omega arith

abbrev between : List Op
between =
    attempt (codes "ann") (codes "secret") [] 20
    ∷ ask (codes "ann") 30
    ∷ attempt (codes "bob") (codes "secret") [] 2000
    ∷ unlock (codes "bob")
    ∷ []

between-Before : All (Before (codes "ann") 910) between
between-Before =
    ((λ e. omega arith), ((λ e. omega arith), ((λ e. ground arith), ((λ e. ground arith), tt))))

authenticate-lockout_example :
    (authenticate one_user
      (run one_user
        (authenticate one_user failed_once (codes "ann") (codes "guess") [] 10).0
        between)
      (codes "ann")
      (codes "secret")
      []
      500).1
    ≡ err too_many_attempts
unfolding lookup
authenticate-lockout_example =
    authenticate-lockout one_user failed_once (codes "ann") (codes "guess") [] 10 ann between
      (codes "secret") [] 500 refl refl refl wrong_password (omega arith) second_failure
      between-Before (omega arith)
