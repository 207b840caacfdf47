-- ===== src/Firmware/Hello.antt =====
-- firmware/hello.c.
use picorv.Base.Text.{codes}
use picorv.Console.{Io}
use picorv.Firmware.Print.{print_str}

abbrev hello : Io (Unit {0})
hello = print_str (codes "hello world\n")
