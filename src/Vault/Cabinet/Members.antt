-- ===== src/Vault/Cabinet/Members.antt =====
-- What the server has of the cabinets once one of them is saved.
use iop.Base.{◌+◌, ◌≡◌, Bool, true, false, Text, text_eq, ◌⊎◌}
use iop.Types.Vault.{Cabinet, CabinetUpdate}
use iop.Vault.Cabinet.{CabinetState}
use iop.Vault.Cabinet.Served.{Contents}

-- The modal is closed and reported as saved, with the user and the details as the form has them; or
-- it is open, not reported, and the user is as the form says or as before.
abbrev pub Settled :
    CabinetState → CabinetState → Contents → Text → Bool → Bool → CabinetUpdate → Type 0
Settled before after now user old new form =
    ((after.closed ≡ true)
      × (after.saves ≡ before.saves + 1)
      × (now.is_member user ≡ new)
      × (now.details ≡ form))
    ⊎ ((after.closed ≡ false)
        × (after.saves ≡ before.saves)
        × ((now.is_member user ≡ new) ⊎ (now.is_member user ≡ old)))
