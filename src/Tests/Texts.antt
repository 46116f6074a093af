-- ===== src/Tests/Texts.antt =====
-- The theorems of `Strings` at small memories.
use jos.Prelude.{◌≡◌, some, arith}
use jos.Memory.{Mem, CString, SameOutside}
use jos.Strings.{strcpy, strlcpy, strcmp}
use jos.Strings.Copy.{Holds, strcpy_lem, strlcpy_lem}
use jos.Strings.Compare.{difference, strcmp_lem}
use jos.Tests.Memory.{codes, holding}

-- "help" at 100 and "kerninfo" at 105.
abbrev two : Mem
two = holding "help\0kerninfo"

strcpy_lem_example :
    (m' : Mem) × (strcpy 10 two 200 105 ≡ some (200, m')) × Holds m' two 200 (codes "kerninfo")
strcpy_lem_example =
    strcpy_lem 10 two 200 105 (codes "kerninfo") (omega arith) (omega arith) (omega arith)

strlcpy_lem_example :
    let (n, m') = strlcpy two 200 105 5 in
    (n ≡ 4) × CString m' 200 (codes "kern") × SameOutside m' two 200 5
strlcpy_lem_example =
    strlcpy_lem two 200 105 5 (codes "kerninfo") (omega arith) (omega arith) (omega arith)

strcmp_lem_example : strcmp 10 two 100 105 ≡ some (difference (codes "help") (codes "kerninfo"))
strcmp_lem_example =
    strcmp_lem 10 two 100 105 (codes "help") (codes "kerninfo") (omega arith) (omega arith)
      (omega arith)
