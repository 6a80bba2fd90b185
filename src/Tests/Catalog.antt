-- ===== src/Tests/Catalog.antt =====
-- The catalog of text files with two columns and with one.
use squel.Common.{[], arith, bytes_eq, codes, fault, ok, out_of_bounds, refl, ◌∷◌, ◌≡◌}
use squel.Config.{delimiter}
use squel.Parser.Syntax.{dtype_long, dtype_str}
use squel.Io.Files.{Files, find_file}
use squel.Io.TextFile.Lines.{}
use squel.Planner.Catalog.{catalog_file}
use squel.Planner.Catalog.Types.{}
use squel.Planner.Catalog.Whole.{catalog_file-fields, catalog_file-over_read}
use squel.Operators.Scan.Fields.{fields}
use squel.Operators.Scan.Stream.{text_of}

abbrev catalog_files : Files
catalog_files =
    (codes "a.csv", text_of (codes "n;t" ∷ codes "42;x" ∷ []))
    ∷ (codes "b.csv", text_of (codes "n" ∷ codes "7" ∷ []))
    ∷ []

catalog_file-fields_example :
    catalog_file catalog_files (codes "a.csv") delimiter
    ≡ ok (record {
      path = codes "a.csv";
      names = codes "n" ∷ codes "t" ∷ [];
      types = dtype_long ∷ dtype_str ∷ [];
    })
unfolding fields find_file bytes_eq
catalog_file-fields_example =
    catalog_file-fields catalog_files (codes "a.csv") (codes "n;t") (codes "42;x") [] refl
      (omega arith)
      (record { no_zero = omega arith; no_lf = (refl, (refl, (refl, tt))); short = omega arith })
      (record {
        no_zero = omega arith;
        no_lf = (refl, (refl, (refl, (refl, tt))));
        short = omega arith;
      })
      (omega arith) (omega arith) (omega arith) (omega arith)

catalog_file-over_read_example :
    catalog_file catalog_files (codes "b.csv") delimiter ≡ fault out_of_bounds
unfolding fields find_file bytes_eq
catalog_file-over_read_example =
    catalog_file-over_read catalog_files (codes "b.csv") (codes "n") (codes "7") [] refl
      (omega arith) (record { no_zero = omega arith; no_lf = (refl, tt); short = omega arith })
      (record { no_zero = omega arith; no_lf = (refl, tt); short = omega arith }) (omega arith)
      (omega arith) (refl, tt)
