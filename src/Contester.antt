-- ===== src/Contester.antt =====
-- contester/src: the program that takes unchecked solutions from the database and has each of them
-- checked by checker_rc.
pub mod Numbers
pub mod Database
pub mod Data
pub mod Solution
pub mod Checker
pub mod Queue
pub mod Tables
pub mod Main
