-- ===== src/Cli/Fuel.antt =====
-- The loops of the shell end within their fuel.
use choam.Base.{ok, err, panic}
use choam.Storage.{Storage}
use choam.Sql.Lexer.{CharClass}
use choam.Cli.Shell.{Texts, Shell, Loop}
use choam.Engine.Session.{Session}

module _ (st : Storage) (classes : CharClass) (texts : Texts st.StoreError) where
  -- A loop that did not run out of fuel.
  abbrev Ends : {A : Type 0} → Loop st classes texts A → Type 0
  Ends (ok a) = Unit
  Ends (err e) = ⊥
  Ends panic = Unit
