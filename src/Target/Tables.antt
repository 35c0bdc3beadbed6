-- ===== src/Target/Tables.antt =====
-- The rows of the switches of src/nfpcore/nfp_target.c that have more than three.
use nfp_drv_kmods.Base.{ℕ, List, [], ◌∷◌, bit_or, ◌<<<◌}
use nfp_drv_kmods.Cpp.{action_rw}

abbrev pub p32 : ℕ
p32 = 1

abbrev pub p64 : ℕ
p64 = 2

abbrev pub pushpull_of : ℕ → ℕ → ℕ
pushpull_of pull push = bit_or (pull <<< 4) (push <<< 0)

-- One case of a `switch`: an action, a token, and the pull and push widths.
abbrev pub Row : Type 0
Row = ℕ × ℕ × ℕ × ℕ

abbrev pub mu_common_rows : List Row
mu_common_rows =
    (action_rw, 0, p64, p64)
    ∷ (action_rw, 1, p64, p64)
    ∷ (action_rw, 2, p64, p64)
    ∷ (action_rw, 3, p64, p64)
    ∷ (0, 0, 0, p64)
    ∷ (0, 1, 0, p64)
    ∷ (0, 2, 0, p64)
    ∷ (0, 3, 0, p64)
    ∷ (1, 0, p64, 0)
    ∷ (1, 1, p64, 0)
    ∷ (1, 2, p64, 0)
    ∷ (1, 3, p64, 0)
    ∷ (3, 0, 0, p32)
    ∷ (3, 2, p32, 0)
    ∷ (4, 0, p32, 0)
    ∷ (4, 2, 0, 0)
    ∷ (4, 3, 0, p32)
    ∷ (5, 0, p32, 0)
    ∷ (5, 3, 0, p32)
    ∷ (6, 0, p32, 0)
    ∷ (6, 3, 0, p32)
    ∷ (7, 0, p32, 0)
    ∷ (7, 3, 0, p32)
    ∷ (8, 0, p32, 0)
    ∷ (8, 3, 0, p32)
    ∷ (9, 0, p32, 0)
    ∷ (9, 3, 0, p32)
    ∷ (10, 0, p32, 0)
    ∷ (10, 3, 0, p32)
    ∷ (13, 0, 0, p32)
    ∷ (13, 1, 0, p32)
    ∷ (13, 2, p32, 0)
    ∷ (15, 0, p32, 0)
    ∷ (15, 3, 0, p32)
    ∷ (28, 0, 0, p32)
    ∷ (28, 1, 0, p32)
    ∷ (28, 2, 0, p32)
    ∷ (28, 3, 0, p32)
    ∷ (31, 0, p32, 0)
    ∷ (31, 1, p32, 0)
    ∷ (31, 2, p32, 0)
    ∷ (31, 3, p32, 0)
    ∷ []

abbrev pub mu_ctm_rows : List Row
mu_ctm_rows =
    (16, 1, 0, p32)
    ∷ (17, 1, 0, p32)
    ∷ (17, 3, 0, p64)
    ∷ (18, 2, 0, p64)
    ∷ (18, 3, 0, p64)
    ∷ (21, 0, 0, p64)
    ∷ (21, 1, 0, p64)
    ∷ (21, 2, 0, p64)
    ∷ (21, 3, 0, p64)
    ∷ []

abbrev pub mu_emu_rows : List Row
mu_emu_rows =
    (18, 0, 0, p32)
    ∷ (18, 1, 0, p32)
    ∷ (18, 2, p32, 0)
    ∷ (18, 3, p32, 0)
    ∷ (20, 2, p32, 0)
    ∷ (21, 0, 0, p32)
    ∷ (21, 1, 0, p32)
    ∷ (21, 2, 0, p32)
    ∷ (22, 0, 0, p32)
    ∷ (22, 1, 0, p32)
    ∷ (22, 2, 0, p32)
    ∷ []

abbrev pub ila_rows : List Row
ila_rows = (0, 1, 0, p32) ∷ (2, 0, 0, p32) ∷ (3, 0, p32, 0) ∷ []

abbrev pub pci_rows : List Row
pci_rows = (2, 0, 0, p32) ∷ (3, 0, p32, 0) ∷ []

abbrev pub crypto_rows : List Row
crypto_rows = (2, 0, p64, 0) ∷ []

abbrev pub cap_xpb_rows : List Row
cap_xpb_rows =
    (0, 1, 0, p32)
    ∷ (0, 2, p32, 0)
    ∷ (1, 1, p32, 0)
    ∷ (1, 2, p32, 0)
    ∷ (2, 0, 0, p32)
    ∷ (2, 1, 0, p32)
    ∷ (2, 2, 0, p32)
    ∷ (2, 3, 0, p32)
    ∷ (3, 0, p32, 0)
    ∷ (3, 1, p32, 0)
    ∷ (3, 2, p32, 0)
    ∷ (3, 3, p32, 0)
    ∷ (action_rw, 1, p32, p32)
    ∷ []

abbrev pub cls_rows : List Row
cls_rows =
    (0, 3, p32, 0)
    ∷ (2, 0, p32, 0)
    ∷ (2, 1, p32, 0)
    ∷ (4, 0, p32, 0)
    ∷ (4, 1, p32, 0)
    ∷ (6, 0, p32, 0)
    ∷ (6, 1, p32, 0)
    ∷ (6, 2, p32, 0)
    ∷ (8, 2, p32, 0)
    ∷ (8, 3, p32, 0)
    ∷ (9, 0, 0, p32)
    ∷ (9, 1, 0, p32)
    ∷ (9, 2, 0, p32)
    ∷ (9, 3, 0, p32)
    ∷ (10, 0, p32, 0)
    ∷ (10, 2, p32, 0)
    ∷ (14, 0, p32, 0)
    ∷ (15, 1, 0, p32)
    ∷ (17, 2, p32, 0)
    ∷ (24, 0, 0, p32)
    ∷ (24, 1, p32, 0)
    ∷ (25, 0, 0, p32)
    ∷ (25, 1, p32, 0)
    ∷ []
