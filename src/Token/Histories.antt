-- ===== src/Token/Histories.antt =====
-- Histories of the token endpoint: code exchanges and refreshes one after the other, where other
-- requests run while a refresh mints its token.
use authserver.Store.Monad.{World, final}
use authserver.Token.Env.{Env}
use authserver.Token.Exchange.{ExchangeRequest, exchange_code}
use authserver.Token.Refresh.{RefreshRequest, refresh_token}
use authserver.Token.Keeps.{Closed}
use authserver.Token.Grants.{exchange_code-Keeps, refresh_token-Keeps}

pub data History : World → World → Type 0 where
  stop : {w : World} → History w w
  exchanged :
      {w v : World} (e : Env) (req : ExchangeRequest)
      → History (final (exchange_code e req w)) v
      → History w v
  refreshed :
      {w v : World} (e : Env) (req : RefreshRequest)
      → ((u : World) → History u (e.others u))
      → History (final (refresh_token e req w)) v
      → History w v

-- What the statements keep, histories keep.
pub History-Keeps : {P : World → Type 0} {w v : World} → Closed P → History w v → P w → P v
History-Keeps c stop h = h
History-Keeps c (exchanged {w} e req rest) h =
    History-Keeps c rest ((exchange_code-Keeps c e req).apply w h)
History-Keeps c (refreshed {w} e req others rest) h =
    History-Keeps c rest
      ((refresh_token-Keeps c e req (λ u p. History-Keeps c (others u) p)).apply w h)
