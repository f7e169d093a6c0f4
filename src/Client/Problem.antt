-- ===== src/Client/Problem.antt =====
-- internal/client/client.go: `problemError`, the reading of a problem.
use whatsmeow_api.Prelude.{ℕ, ◌≡◌, refl, String, ◌==◌, if◌then◌else◌}
use whatsmeow_api.Errors.{Error, not_logged_in, already_logged_in, login_in_progress}
use whatsmeow_api.Http.Response.{Response, problem, login_problem, logout_problem, error_text}

-- The client's own errors, and any other problem.
pub data ClientError : Type 0 where
  client_not_logged_in : ClientError
  client_already_logged_in : ClientError
  client_login_in_progress : ClientError
  daemon_returned : ℕ → String → String → ClientError

unfoldable pub problem_error : ℕ → String → String → ClientError
problem_error status code detail =
    if code == "wa.not_logged_in"
    then client_not_logged_in
    else if code == "wa.already_logged_in"
    then client_already_logged_in
    else if code == "wa.login_in_progress"
    then client_login_in_progress
    else daemon_returned status code detail

-- The client's error for an error of the daemon's service at a login.
abbrev pub of_login : Error → ClientError
of_login already_logged_in = client_already_logged_in
of_login login_in_progress = client_login_in_progress
of_login e = daemon_returned 500 "wa.login_failed" (error_text e)

abbrev pub of_logout : Error → ClientError
of_logout not_logged_in = client_not_logged_in
of_logout e = daemon_returned 500 "wa.internal" (error_text e)

-- The problem is what the daemon answers, and what the client makes of it is `c`.
abbrev pub IsReadAs : Response → ClientError → Type 0
IsReadAs r c =
    (status : ℕ) × (code : String) × (detail : String) × (r ≡ problem status code detail)
    × (problem_error status code detail ≡ c)

-- The client tells apart every error of the daemon's login and logout that the daemon tells apart:
-- the problem that the daemon writes for it is read as the client's error of the same name, and
-- any other error is reported with its status, code and text.
pub login_problem-IsReadAs :
    (e : Error)
    → IsReadAs (login_problem e) (of_login e) × IsReadAs (logout_problem e) (of_logout e)
unfolding problem_error login_problem logout_problem
login_problem-IsReadAs not_logged_in = ((_, _, _, refl, refl), (_, _, _, refl, refl))
login_problem-IsReadAs already_logged_in = ((_, _, _, refl, refl), (_, _, _, refl, refl))
login_problem-IsReadAs login_in_progress = ((_, _, _, refl, refl), (_, _, _, refl, refl))
login_problem-IsReadAs _ = ((_, _, _, refl, refl), (_, _, _, refl, refl))
