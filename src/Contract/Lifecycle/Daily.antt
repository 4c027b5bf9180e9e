-- ===== src/Contract/Lifecycle/Daily.antt =====
-- The daily renewal of lines: `_contract_line_to_renew_domain` and `cron_renew_contract_line` of
-- local/Contract/models/contract_line.py. A search gives the lines in the order of the store; the
-- lines of archived contracts, which it does not give, are not in the store.
pub mod Extended
use projectname.Prelude.{
  ℕ, Bool, not, some, List, [], ◌∷◌, ◌&&◌, both_le, Result, ok, ◌>>=◌, if◌then◌else◌,
}
use projectname.Contract.Line.{Line}
use projectname.Contract.Store.{Contract, Store, Env, find_contract, terminated}
use projectname.Contract.Lifecycle.Renew.{renew}

-- The four conditions of the domain. A date that is not set is not compared.
unfoldable pub contract_line_to_renew_domain : ℕ → List Contract → Line → Bool
contract_line_to_renew_domain today contracts rec =
    not (terminated (find_contract rec.contract_id contracts))
    && rec.is_auto_renew
    && not rec.is_canceled
    && both_le rec.termination_notice_date (some today)

-- `self.search(domain)`
unfoldable pub lines_to_renew : ℕ → List Contract → List Line → List ℕ
lines_to_renew today contracts [] = []
lines_to_renew today contracts (rec ∷ lines) =
    let rest = lines_to_renew today contracts lines in
    if contract_line_to_renew_domain today contracts rec then rec.id ∷ rest else rest

unfoldable pub cron_renew_contract_line : Env → Store → Result Store
cron_renew_contract_line env st = do
  (lines, st') ← renew env (lines_to_renew env.today st.contracts st.lines) st
  ok st'
