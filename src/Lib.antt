-- ===== src/Lib.antt =====
-- A Bluetooth Low Energy peripheral over BlueZ and D-Bus: what the program's GATT objects, its D-Bus
-- layer and its texts do.
--
-- The program builds a tree of services, characteristics and descriptors (src/GattService.cpp,
-- src/GattCharacteristic.cpp, src/GattDescriptor.cpp). Each of them is a D-Bus object
-- (src/DBusObject.cpp) with interfaces, properties and methods; it describes itself by XML
-- (src/DBusXml.cpp) and is registered with the connection (src/DBusConnection.cpp), which hands calls
-- from the bus back to it. BlueZ reads values, writes them and turns notifications on and off through
-- these calls. The application (src/GattApplication.cpp) holds the services, gives BlueZ the
-- dictionary of all objects and registers itself with it.
--
-- The files and the code:
--   * ObjectPath: include/DBusObjectPath.h (`append`, `operator +`).
--   * Uuid: src/GattTypes.cpp (`GattUuid`).
--   * DBusTypes: the structures of include/DBusTypes.h.
--   * Xml: src/DBusXml.cpp, a function for each function of the class.
--   * Connection: src/DBusConnection.cpp. The record `DBusConnection` holds the two maps of the class
--     and whether there is a connection. Connection/Dispatch holds the handlers that GIO calls.
--   * DBusObject: src/DBusObject.cpp. The record holds the fields of the class but the connection,
--     which the operations take and return.
--   * Gatt: the GATT layer. Gatt/Records holds the state, Gatt/Flags the bits and the lists of flags,
--     Gatt/Setup the three `setupDBusInterfaces`, Gatt/Characteristic and Gatt/Descriptor the values,
--     notifications and handlers, Gatt/Create the creation of children and their look-up,
--     Gatt/Application the application of src/GattApplication.cpp with its services, and Gatt/Served the
--     way of a call from the bus to the handlers.
--   * Utils: the trimming functions of src/Utils.cpp, and in Utils/Hex its hex output.
--     Utils/Variants builds values of GLib.
--   * DBusMethod: src/DBusMethod.cpp and src/DBusError.cpp.
--   * DBusMessage: src/DBusMessage.cpp.
--   * Hci: the path to the controller that does not go through D-Bus. Hci/Socket is src/HciSocket.cpp,
--     Hci/Adapter and Hci/Events are src/HciAdapter.cpp, its commands and its event thread, Hci/Mgmt is
--     src/Mgmt.cpp, and Hci/Packet the memory of a command; Hci/Framing says what a command packet is, and
--     Hci/Commands what each command stands for. Hci/System holds the calls to the operating
--     system and the record `System` of its answers.
--   * Threads: programs of threads that lock mutexes, how they are interleaved, the order in which
--     they lock (Threads/Order, Threads/Progress), a thread that runs alone (Threads/Alone), and threads
--     that do everything under one mutex (Threads/Atomic). Gatt/Locks has the functions of
--     src/GattCharacteristic.cpp and src/GattDescriptor.cpp that lock a mutex, step by step (Order: the
--     order of the locks; Freedom, Notifying and Deadlock: threads that run these functions),
--     Gatt/Service those of src/GattService.cpp, and Connection/Locks the signal watches of
--     src/DBusConnection.cpp.
--   * Server: src/Server.cpp; Peripheral: src/main.cpp; Logger: src/Logger.cpp.
--   * Print: `std::to_string`, hexadecimal output and C strings, as the code uses them.
--   * Gio: what the code calls of GLib and GIO, and the record `Environment` of their answers.
--   * Prelude: shared names, tests, lists, texts and maps with ordered keys.
--
-- GLib and GIO stand outside the repository. Their answers are an argument `env`, which may answer
-- each call from all the calls before; a theorem that needs something of the answers has it among its
-- conditions. What the program asks for is kept in the field `history`, the latest call first, so
-- that theorems can speak of the calls that were made. Where the code breaks a condition that GLib
-- documents, what comes of it is an answer too (the parameters of a changed property), or the call is
-- kept for what it is: a value that GIO does not take for a reply (`is_tuple`) does not count as one.
-- A callback of the application answers from that history too. A text is a list of bytes. The
-- operating system below the HCI socket is an argument in the same way, and so is what another thread
-- does to the flags that a loop tests.
--
-- Most loops of the code go over a list. The function that prints a number in decimal has the number
-- plus one as its fuel, more than its digits, and Print/Decimal reads the number back. The wait of the
-- HCI socket and the loop of the event thread have no bound in the code: they run on one unit of fuel
-- for each round, they say so when it is used up, and the theorems on them state for every number of
-- rounds when that is the case. Groups of bytes in Utils/Hex/Dump take the number of bytes as fuel,
-- each group has at least one.
--
-- A mutex that its own thread holds already is waited for, as `std::mutex` does in practice. The steps
-- of a thread are its accesses to shared fields and its calls of callbacks, of GLib and of the
-- connection. The other modules take each function as one step.
--
-- Not modelled: the mutexes of `DBusObject` and of the application, memory and the references of
-- variants (`GVariantPtr` of include/DBusTypes.h), what the parts log, exceptions other than those of
-- callbacks and constructors, and failure to allocate memory; and the functions that only hand their
-- arguments to GLib (`invokeAsync` of src/DBusMethod.cpp, `gvariantFromInt` and
-- `createEmptyDictionary` of src/Utils.cpp). The class of src/Server.cpp is declared in no header,
-- and src/main.cpp calls members that the headers do not have; the answers of these calls are
-- arguments. The class `BleServer` of include/Server.h has no definition. Nor is modelled what
-- callers read through the references that the getters of services and characteristics hand out, once
-- the mutex is free. Bytes are natural numbers; where a width matters, the theorem bounds them.
pub mod Prelude
pub mod Print
pub mod ObjectPath
pub mod Uuid
pub mod Gio
pub mod DBusTypes
pub mod Xml
pub mod Connection
pub mod DBusObject
pub mod DBusMethod
pub mod DBusMessage
pub mod Threads
pub mod Gatt
pub mod Hci
pub mod Server
pub mod Peripheral
pub mod Logger
pub mod Utils
