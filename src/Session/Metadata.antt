-- ===== src/Session/Metadata.antt =====
-- comon/dbgsession.h, `create_cometa`: the database that a session works with. The file system is a
-- parameter.
use comon.Base.{
  ◌≡◌, refl, ◌⊎◌, inl, inr, Bool, true, false, Option, some, [], arith, Bool-cases, Text, codes,
  nat_eq, list_eq,
}
use comon.Arch.{Arch, is_64bit}
use comon.Cometa.Database.{Database}
use comon.Cometa.Queries.{Cometa}
use comon.Cometa.Queries.Coherence.{Coherent}
use comon.Cometa.Setup.{Files, is_valid_db, new_cometa}
use comon.Cometa.Setup.Fresh.{is_valid_db-new_cometa, new_cometa_lem}

-- a file of the temporary directory, and whether a file exists
module _ (D : Database) (files : Files D) (temp_file : Text → Text) (exists : Text → Bool) where
  abbrev pub metadata_path : Arch → Text
  metadata_path cc =
      temp_file
        (elim (is_64bit cc) [ true ↦ codes "cometa_64.db3" | false ↦ codes "cometa_32.db3" ])

  unfoldable pub create_cometa : Arch → Option (Cometa D)
  create_cometa cc = elim (exists (metadata_path cc)) [
    | true ↦ elim (is_valid_db D files (metadata_path cc)) [
      | true ↦ new_cometa D files (metadata_path cc) false
      | false ↦ new_cometa D files [] true
    ]
    | false ↦ new_cometa D files (metadata_path cc) true
  ]

  -- Where the file is there already and a database in memory can be created, a session gets its
  -- metadata: from the file exactly if that is valid, and otherwise from a new database in memory,
  -- never by writing a new database into the file. The cache of types agrees with the database.
  pub create_cometa_lem :
      (cc : Arch) (fresh : Cometa D)
      → new_cometa D files [] true ≡ some fresh
      → exists (metadata_path cc) ≡ true
      → (c : Cometa D) × (create_cometa cc ≡ some c)
        × Coherent 0 c
        × (((is_valid_db D files (metadata_path cc) ≡ true)
              × (new_cometa D files (metadata_path cc) false ≡ some c))
            ⊎ ((is_valid_db D files (metadata_path cc) ≡ false) × (c ≡ fresh)))
  unfolding create_cometa
  create_cometa_lem cc fresh made there =
      elim (Bool-cases (is_valid_db D files (metadata_path cc))) [
        | inl valid ↦
            let (c, e) = (is_valid_db-new_cometa D files (metadata_path cc)).0 valid in
            (
              c,
              ground (arith, there, valid, e),
              (new_cometa_lem D files (metadata_path cc) false c e).0,
              inl (valid, e),
            )
        | inr broken ↦ (
          fresh,
          ground (arith, there, broken, made),
          (new_cometa_lem D files [] true fresh made).0,
          inr (broken, refl),
        )
      ]
