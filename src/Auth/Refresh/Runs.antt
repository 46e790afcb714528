-- ===== src/Auth/Refresh/Runs.antt =====
-- Every refresh, seen through the log of its calls of the digester and of the session repository.
use nexus_services.Shared.{List, Result}
use nexus_services.Shared.Actions.{◌>>=◌}
use nexus_services.Text.{Text}
use nexus_services.Domain.Session.{Session}
use nexus_services.Auth.Ports.{AuthError, Dependencies}
use nexus_services.Auth.Log.{Call}
use nexus_services.Auth.Refresh.Renewals.{IsCurrent}
use nexus_services.Auth.Tokens.{Config, Tokens}
use nexus_services.Auth.Refresh.Outcomes.{IsRefresh}

module _ {W : Type 0} (D : Dependencies W) (config : Config) where
  abbrev pub IsEnd : Text → W → Result AuthError Tokens × (W × List Call) → Type 0
  IsEnd raw w₀ (r, (_, log)) = IsRefresh config raw (IsCurrent D config raw w₀) log r
