-- ===== src/App.antt =====
-- core/application: the use cases.
pub mod Reconcile
pub mod Commands
pub mod Query
use flintlock.Prelude.{ℕ, String}

-- application.Config
pub record Config : Type 0 where
  pub root_state_dir : String
  pub maximum_retry : ℕ
  pub default_provider : String
