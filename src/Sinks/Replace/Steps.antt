-- ===== src/Sinks/Replace/Steps.antt =====
-- core/ramdb_writer.py and sinks/arrow_ipc.py: one write as steps of the process and of the signals
-- that it may meet. The codec may leave any bytes before it is done.
use r64_db_engine.Base.{String, Bool, string_eq}
use r64_db_engine.Base.Dict
use r64_db_engine.Base.Dict.{Dict}
use r64_db_engine.Sinks.Replace.{safe_unlink, rename}

-- Where the write is; `cleaning` is the `finally` block.
pub data Phase : Type 0 where
  saving saved cleaning returned dead : Phase

module _ {Bytes : Type 0} (tmp final : String) (content : Bytes) where
  pub data Step : Phase → Dict String Bytes → Phase → Dict String Bytes → Type 0 where
    save_some : (d : Dict String Bytes) (b : Bytes) → Step saving d saving (Dict.insert tmp b d)
    save_all : (d : Dict String Bytes) → Step saving d saved (Dict.insert tmp content d)
    save_raises : (d : Dict String Bytes) → Step saving d cleaning d
    renames : (d : Dict String Bytes) → Step saved d cleaning (rename tmp final d)
    rename_raises : (d : Dict String Bytes) → Step saved d cleaning d
    unlinks :
        (d : Dict String Bytes) (stuck : String → Bool)
        → Step cleaning d returned (safe_unlink stuck tmp d)
    -- `terminate`, the handler of SIGTERM
    terminates :
        (p : Phase) (d : Dict String Bytes) (stuck : String → Bool)
        → Step p d dead (safe_unlink stuck tmp d)
    -- SIGKILL, a crash, or SIGTERM outside the main thread
    killed : (p : Phase) (d : Dict String Bytes) → Step p d dead d

  pub data Reach (d₀ : Dict String Bytes) : Phase → Dict String Bytes → Type 0 where
    here : Reach d₀ saving d₀
    next : {p q : Phase} {d e : Dict String Bytes} → Reach d₀ p d → Step p d q e → Reach d₀ q e
