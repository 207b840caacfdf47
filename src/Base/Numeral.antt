-- ===== src/Base/Numeral.antt =====
-- What a printed number is: the reference for every printing routine of the firmware.
mod Decimal
mod Hexadecimal
pub use Decimal.{IsDigit, IsDecimal, LeadsWell, value}
unfoldable pub use Decimal.{decimal}
pub use Decimal.{decimal_small, decimal_step, value-decimal, decimal-IsDecimal, length-decimal-le}
pub use Hexadecimal.*
