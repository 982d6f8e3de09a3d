-- ===== src/Gateway/RateLimit/Windows.antt =====
-- apps/backend/gateway/src/rateLimit/rateLimiter.ts: the keys of the windows.
use delego.Base.{ℕ, ◌/◌, ◌≡◌, ◌↔◌, ap, sym, ◌∙◌, [], ◌∷◌, ◌++◌, arith}
use delego.Base.Text.{Text, text}
use delego.Utils.Amounts.{decimal, read_digits}
use delego.Utils.Amounts.Decimal.{read_digits-decimal}
use delego.Gateway.RateLimit.{build_key}

cancel_front : (front s t : Text) → front ++ s ≡ front ++ t → s ≡ t
cancel_front [] s t h = h
cancel_front (c ∷ front) s t h = cancel_front front s t (cc)

read_back : (n : ℕ) → read_digits 0 (decimal n n) ≡ n
read_back n = read_digits-decimal n n (omega arith)

decimal-injective : (m n : ℕ) → decimal m m ≡ decimal n n → m ≡ n
decimal-injective m n h = sym (read_back m) ∙ ap (read_digits 0) h ∙ read_back n

-- Two checks of one identifier and endpoint, with windows of one length, count under the same key
-- exactly when the times at which they begin lie in the same window.
pub build_key_iff :
    (identifier endpoint : Text) (window_ms now later : ℕ)
    → (build_key identifier endpoint window_ms now ≡ build_key identifier endpoint window_ms later)
      ↔ (now / window_ms ≡ later / window_ms)
unfolding build_key
build_key_iff identifier endpoint window_ms now later =
    let front = text "ratelimit:" ++ identifier ++ text ":" ++ endpoint ++ text ":" in
    (
      (λ h. decimal-injective (now / window_ms) (later / window_ms) (
          cancel_front front (decimal (now / window_ms) (now / window_ms))
            (decimal (later / window_ms) (later / window_ms)) h)),
      (λ h. ap (λ n. front ++ decimal n n) h),
    )
