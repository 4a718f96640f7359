-- ===== src/Comm/Cookie/Tests.antt =====
-- Concrete headers, and the round trip at one of them.
use distributed_oj.Base.{◌≡◌, refl, text, List, [], ◌∷◌, Text, arith}
use distributed_oj.Comm.Cookie.{get_cookie_value}
use distributed_oj.Comm.Cookie.RoundTrip.{print_cookies, get_cookie_value-print_cookies}

cookie_test :
    get_cookie_value (text "theme=dark; session_id=4fQ; x=") (text "session_id") ≡ text "4fQ"
unfolding get_cookie_value
cookie_test = refl

no_cookie_test : get_cookie_value (text "theme; =; ;;") (text "session_id") ≡ []
unfolding get_cookie_value
no_cookie_test = refl

abbrev jar : List (Text × Text)
jar = (text "theme", text "dark=1") ∷ (text "session_id", text "4fQ") ∷ []

get_cookie_value-print_cookies_example :
    get_cookie_value (print_cookies jar) (text "session_id") ≡ text "4fQ"
get_cookie_value-print_cookies_example =
    get_cookie_value-print_cookies (text "session_id") jar (omega arith)
