-- ===== src/Errors.antt =====
-- Go's error values. The sentinels that callers tell apart by `errors.Is` are constructors; a
-- wrapped sentinel (`%w`) keeps its constructor and carries the text of the wrapper.
use whatsmeow_api.Prelude.{String, ◌≡◌, Bool, true, false}
use whatsmeow_api.Text.{concat}

pub data Error : Type 0 where
  -- service.ErrInvalidRequest, service.ErrForbidden
  invalid_request : String → Error
  forbidden : String → Error
  -- store.ErrNotFound
  not_found : Error
  -- waclient.ErrNotConnected, ErrNotLoggedIn, ErrAlreadyLoggedIn, ErrLoginInProgress
  not_connected : Error
  not_logged_in : Error
  already_logged_in : Error
  login_in_progress : Error
  -- any other error
  failure : String → Error

-- What a Go function that returns a value and an error returns: one of the two.
pub data Result {ℓ} (A : Type ℓ) : Type ℓ where
  ok : A → Result A
  err : Error → Result A

-- `if err != nil { return …, err }`, then the rest of the function.
infixl 5 ◌>>=◌
abbrev pub ◌>>=◌ {ℓ κ} : {V : Type ℓ} {W : Type κ} → Result V → (V → Result W) → Result W
err failed >>= next = err failed
ok value >>= next = next value

abbrev pub is_ok {ℓ} : {A : Type ℓ} → Result A → Bool
is_ok (ok _) = true
is_ok (err _) = false

pub ok-injective {ℓ} : {A : Type ℓ} {a b : A} → ok a ≡ ok b → a ≡ b
ok-injective h = cc

-- `fmt.Errorf("…: %w", err)`: the text goes before that of the error, and a sentinel stays itself.
unfoldable pub wrap : String → Error → Error
wrap what (invalid_request why) = invalid_request (concat what why)
wrap what (forbidden why) = forbidden (concat what why)
wrap what (failure why) = failure (concat what why)
wrap what sentinel = sentinel
