-- ===== src/Cli.antt =====
-- src/main.cpp: how main ends before the event loop. Number is strtoul and the numbers of the command
-- line, Options the loop over argv, and Startup what main does with the options.
pub mod Number
pub mod Options
pub mod Startup
mod Tests
use meshcom_loraham_bridge.Prelude.{ℕ, Bool, true, false, Bytes, ◌≡◌}
use meshcom_loraham_bridge.Auth.{FileError}
use meshcom_loraham_bridge.Xr.Server.Listen.{ListenError}

-- The returns and exits of main before the event loop, in their order.
pub data Stop : Type 0 where
  version_shown help_shown needs_value unknown_argument : Stop
  port_out_of_range ms_out_of_range rflog_not_on_off : Stop
  unusable_socket : Bytes → Stop
  lone_socket sockets_need_loraham : Stop
  password_file_failed : FileError → Stop
  rflog_needs_path rflog_failed unknown_backend : Stop
  listen_failed : ListenError → Stop

unfoldable pub exit_code : Stop → ℕ
exit_code version_shown = 0
exit_code help_shown = 0
exit_code (password_file_failed e) = 1
exit_code rflog_failed = 1
exit_code (listen_failed e) = 1
exit_code _ = 2

pub data Result {ℓ} (A : Type ℓ) : Type ℓ where
  ok : A → Result A
  stop : Stop → Result A

infixl 5 ◌>>=◌ ◌>>◌
abbrev pub ◌>>=◌ {ℓ κ} : {A : Type ℓ} {B : Type κ} → Result A → (A → Result B) → Result B
ok a >>= f = f a
stop s >>= f = stop s

abbrev pub ◌>>◌ {ℓ} : {B : Type ℓ} → Result (Unit {0}) → Result B → Result B
m >> k = m >>= λ _. k

abbrev pub guard : Bool → Stop → Result (Unit {0})
guard true s = ok tt
guard false s = stop s

-- Of a result that is one.
abbrev pub Holds {ℓ κ} : {A : Type ℓ} → (A → Type κ) → Result A → Type κ
Holds P (ok a) = P a
Holds P (stop s) = Unit

pub any-Holds {ℓ} : {A : Type ℓ} (m : Result A) → Holds (λ a. Unit {0}) m
any-Holds (ok a) = tt
any-Holds (stop s) = tt

pub >>=-Holds {ℓ κ μ} :
    {A B : Type ℓ} (P : A → Type κ) (Q : B → Type μ) (m : Result A) (f : A → Result B)
    → Holds P m
    → ((a : A) → P a → Holds Q (f a))
    → Holds Q (m >>= f)
>>=-Holds P Q (ok a) f h k = k a h
>>=-Holds P Q (stop s) f h k = tt
