-- ===== src/Wire/Account.antt =====
-- The requests on accounts: `AcountDelete`, `AcountLogin`, `AcountLogout` and `AcountCanReg` of
-- include/struct_def.h.
use aim_to_v.Base.{ℕ, ◌+◌, ◌<◌, ◌^◌, ◌≡◌, List, [], ◌∷◌, length as size, length-append, replicate}
use aim_to_v.Wire.Bytes.{
  Bytes, Reader, ◌>>=◌, pure, at, get_num, get_bytes, le_bytes, written, get_num-le_bytes,
  get_bytes-append, length-le_bytes,
}
use aim_to_v.Wire.Codec.{Layout}

-- `AcountDelete`.
pub record AcountDelete : Type 0 where
  pub user_guid : ℕ

-- The fields hold what their C++ types can.
pub record AcountDeleteFits (m : AcountDelete) : Type 0 where
  pub user_guid : m.user_guid < 256 ^ 4

-- What the constructor leaves.
abbrev pub acount_delete_init : AcountDelete
acount_delete_init = record { user_guid = 0 }

abbrev pub acount_delete_length : ℕ
acount_delete_length = 4

unfoldable pub acount_delete_read : Reader AcountDelete
acount_delete_read = do user_guid ← get_num 4; pure (record { user_guid = user_guid })

abbrev pub acount_delete_fields : AcountDelete → List Bytes
acount_delete_fields m = le_bytes 4 m.user_guid ∷ []

pub acount_delete_reads_back :
    (m : AcountDelete) (rest : Bytes)
    → AcountDeleteFits m
    → acount_delete_read (at 0 (written (acount_delete_fields m) rest))
      ≡ (m, at acount_delete_length rest)
unfolding acount_delete_read
acount_delete_reads_back m rest f = simp (get_num-le_bytes 4 m.user_guid _ _ f.user_guid)

pub acount_delete_fills :
    (m : AcountDelete)
    → AcountDeleteFits m
    → size (written (acount_delete_fields m) []) ≡ acount_delete_length
acount_delete_fills m f = simp (length-append, length-le_bytes)

abbrev pub acount_delete : Layout AcountDelete
acount_delete = record {
  length = acount_delete_length;
  read = acount_delete_read;
  fields = acount_delete_fields;
  Fits = AcountDeleteFits;
  reads_back = acount_delete_reads_back;
  fills = acount_delete_fills;
}

-- `AcountLogin`.
pub record AcountLogin : Type 0 where
  pub phone : Bytes
  pub sha256 : Bytes

-- The fields hold what their C++ types can.
pub record AcountLoginFits (m : AcountLogin) : Type 0 where
  pub phone : size m.phone ≡ 16
  pub sha256 : size m.sha256 ≡ 64

-- What the constructor leaves.
abbrev pub acount_login_init : AcountLogin
acount_login_init = record { phone = replicate 16 0; sha256 = replicate 64 0 }

abbrev pub acount_login_length : ℕ
acount_login_length = 16 + 64

unfoldable pub acount_login_read : Reader AcountLogin
acount_login_read = do
  phone ← get_bytes 16
  sha256 ← get_bytes 64
  pure (record { phone = phone; sha256 = sha256 })

abbrev pub acount_login_fields : AcountLogin → List Bytes
acount_login_fields m = m.phone ∷ m.sha256 ∷ []

pub acount_login_reads_back :
    (m : AcountLogin) (rest : Bytes)
    → AcountLoginFits m
    → acount_login_read (at 0 (written (acount_login_fields m) rest))
      ≡ (m, at acount_login_length rest)
unfolding acount_login_read
acount_login_reads_back m rest f =
    simp (get_bytes-append 16 _ m.phone _ f.phone, get_bytes-append 64 _ m.sha256 _ f.sha256)

pub acount_login_fills :
    (m : AcountLogin)
    → AcountLoginFits m
    → size (written (acount_login_fields m) []) ≡ acount_login_length
acount_login_fills m f = simp (length-append, f.phone, f.sha256)

abbrev pub acount_login : Layout AcountLogin
acount_login = record {
  length = acount_login_length;
  read = acount_login_read;
  fields = acount_login_fields;
  Fits = AcountLoginFits;
  reads_back = acount_login_reads_back;
  fills = acount_login_fills;
}

-- `AcountLogout`.
pub record AcountLogout : Type 0 where
  pub user_guid : ℕ

-- The fields hold what their C++ types can.
pub record AcountLogoutFits (m : AcountLogout) : Type 0 where
  pub user_guid : m.user_guid < 256 ^ 4

-- What the constructor leaves.
abbrev pub acount_logout_init : AcountLogout
acount_logout_init = record { user_guid = 0 }

abbrev pub acount_logout_length : ℕ
acount_logout_length = 4

unfoldable pub acount_logout_read : Reader AcountLogout
acount_logout_read = do user_guid ← get_num 4; pure (record { user_guid = user_guid })

abbrev pub acount_logout_fields : AcountLogout → List Bytes
acount_logout_fields m = le_bytes 4 m.user_guid ∷ []

pub acount_logout_reads_back :
    (m : AcountLogout) (rest : Bytes)
    → AcountLogoutFits m
    → acount_logout_read (at 0 (written (acount_logout_fields m) rest))
      ≡ (m, at acount_logout_length rest)
unfolding acount_logout_read
acount_logout_reads_back m rest f = simp (get_num-le_bytes 4 m.user_guid _ _ f.user_guid)

pub acount_logout_fills :
    (m : AcountLogout)
    → AcountLogoutFits m
    → size (written (acount_logout_fields m) []) ≡ acount_logout_length
acount_logout_fills m f = simp (length-append, length-le_bytes)

abbrev pub acount_logout : Layout AcountLogout
acount_logout = record {
  length = acount_logout_length;
  read = acount_logout_read;
  fields = acount_logout_fields;
  Fits = AcountLogoutFits;
  reads_back = acount_logout_reads_back;
  fills = acount_logout_fills;
}

-- `AcountCanReg`.
pub record AcountCanReg : Type 0 where
  pub phone : Bytes

-- The fields hold what their C++ types can.
pub record AcountCanRegFits (m : AcountCanReg) : Type 0 where
  pub phone : size m.phone ≡ 16

-- What the constructor leaves.
abbrev pub acount_can_reg_init : AcountCanReg
acount_can_reg_init = record { phone = replicate 16 0 }

abbrev pub acount_can_reg_length : ℕ
acount_can_reg_length = 16

unfoldable pub acount_can_reg_read : Reader AcountCanReg
acount_can_reg_read = do phone ← get_bytes 16; pure (record { phone = phone })

abbrev pub acount_can_reg_fields : AcountCanReg → List Bytes
acount_can_reg_fields m = m.phone ∷ []

pub acount_can_reg_reads_back :
    (m : AcountCanReg) (rest : Bytes)
    → AcountCanRegFits m
    → acount_can_reg_read (at 0 (written (acount_can_reg_fields m) rest))
      ≡ (m, at acount_can_reg_length rest)
unfolding acount_can_reg_read
acount_can_reg_reads_back m rest f = simp (get_bytes-append 16 _ m.phone _ f.phone)

pub acount_can_reg_fills :
    (m : AcountCanReg)
    → AcountCanRegFits m
    → size (written (acount_can_reg_fields m) []) ≡ acount_can_reg_length
acount_can_reg_fills m f = simp (length-append, f.phone)

abbrev pub acount_can_reg : Layout AcountCanReg
acount_can_reg = record {
  length = acount_can_reg_length;
  read = acount_can_reg_read;
  fields = acount_can_reg_fields;
  Fits = AcountCanRegFits;
  reads_back = acount_can_reg_reads_back;
  fills = acount_can_reg_fills;
}
