-- ===== src/Exchange/Risk/Gated.antt =====
-- mdh/src/exchange/risk/risk_gated_engine.cpp: which commands reach the engine, and what a refused
-- command changes.
use cpp_projects.Base.{◌≡◌, ◌⊎◌, true}
use cpp_projects.Exchange.Core.{ExchangeCommand}
use cpp_projects.Exchange.Engine.State.{MatchingEngine, Run}
use cpp_projects.Exchange.Engine.Process.{process}
use cpp_projects.Exchange.Engine.Rejects.{IsUntouched, has_rejection}
use cpp_projects.Exchange.Ledger.{Ledger}
use cpp_projects.Exchange.Risk.{apply_all}

-- One rejection is all that happens.
abbrev pub Refuses : MatchingEngine → Ledger → Run × Ledger → Type 0
Refuses e l (r, l') = IsUntouched e r × (has_rejection r.emitted ≡ true) × (l' ≡ l)

-- The command reaches the engine and its events the ledger, or one rejection is all that happens.
abbrev pub Gates : MatchingEngine → Ledger → ExchangeCommand → Type 0 → Run × Ledger → Type 0
Gates e l command Allowed result =
    (Allowed × (result ≡ (process e command, apply_all l (process e command).emitted)))
    ⊎ ((¬ Allowed) × Refuses e l result)
