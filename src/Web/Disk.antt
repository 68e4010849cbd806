-- ===== src/Web/Disk.antt =====
-- os.WriteFile, with what comes in front of it to open the file, as the outside decides.
use kessa.Base.{ℕ}

-- It writes all, it fails before it opens the file, or it fails when it has written so many bytes
-- over what was there.
pub data Write : Type 0 where
  complete not_opened : Write
  cut_off : ℕ → Write
