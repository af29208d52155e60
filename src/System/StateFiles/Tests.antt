-- ===== src/System/StateFiles/Tests.antt =====
-- One entry, where nothing is stripped.
use julius_os.Prelude.{Option, none}
use julius_os.Prelude.Int.{ℤ}
use julius_os.Prelude.Text.{Text, codes}

abbrev as_is : Text → Text
as_is t = t

abbrev no_number : Text → Option ℤ
no_number t = none

abbrev entry : Text × Text
entry = (codes "k", codes "4")
