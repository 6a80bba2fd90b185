-- ===== src/Config.antt =====
-- src/include/const.h: the sizes that several components share, and where tables lie.
use squel.Common.{Bytes, codes, ℕ}

-- `LINEBUFF`
abbrev pub line_buff : ℕ
line_buff = 200

-- `LF`
abbrev pub lf : ℕ
lf = 10

-- `DATAPATH`, `TDBFILEXT`
abbrev pub data_path : Bytes
data_path = codes "./data"

abbrev pub tdb_file_ext : Bytes
tdb_file_ext = codes "tdb"

-- `TDBRECORDMAXSIZE`
abbrev pub tdb_record_max_size : ℕ
tdb_record_max_size = 1024

-- `TDBSCANBUFFRECORDS`
abbrev pub tdb_scan_buff_records : ℕ
tdb_scan_buff_records = 10000

-- `TDBMAXSTRINGSIZE`
abbrev pub tdb_max_string_size : ℕ
tdb_max_string_size = 50

-- `HTSIZE`
abbrev pub ht_size : ℕ
ht_size = 3000

-- `DELIMITER`
abbrev pub delimiter : ℕ
delimiter = b';'

-- `ARRAYMAXSIZE`
abbrev pub array_max_size : ℕ
array_max_size = 25

-- `CHARMAXSIZE`
abbrev pub char_max_size : ℕ
char_max_size = 100
